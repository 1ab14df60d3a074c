-- ===== src/Server/ThreadPool/Shutdown.antt =====
-- ThreadPool.cpp: the destructor, which sets its flag without the mutex, and a thread that it misses.
use socket_message.Prelude.{
  ℕ, zero, suc, ◌≡◌, refl, ap, ◌∙◌, true, false, none, some, List, [], ◌∷◌, get_elem?, set,
  if◌then◌else◌, ◌>>=◌, ◌>>◌, guard, Option-cases, ◌⊎◌, inl, inr, some-injective, All,
}
use socket_message.Server.ThreadPool.Asleep.{Silent, Asleep, run-Asleep}
use socket_message.Server.ThreadPool.{
  Worker, ready, dozing, waiting, exited, Pool, is_free, woken, wake_all, Event, set_destory,
  notify, test, sleep, run_test, step_worker, worker_event, step, run,
}

get_elem?-set :
    (ws : List Worker) (i : ℕ) (w v : Worker)
    → get_elem? ws i ≡ some w
    → get_elem? (set ws i v) i ≡ some v
get_elem?-set [] i w v e = cc
get_elem?-set (x ∷ ws) zero w v e = refl
get_elem?-set (x ∷ ws) (suc i) w v e = get_elem?-set ws i w v e

get_elem?-wake_all :
    (ws : List Worker) (i : ℕ) (w : Worker)
    → get_elem? ws i ≡ some w
    → get_elem? (wake_all ws) i ≡ some (woken w)
unfolding wake_all
get_elem?-wake_all [] i w e = cc
get_elem?-wake_all (x ∷ ws) zero w e = ap (λ o. some (woken o)) (some-injective _ _ e)
get_elem?-wake_all (x ∷ ws) (suc i) w e = get_elem?-wake_all ws i w e

-- The schedule that misses thread `i`.
abbrev pub missed : ℕ → List Event
missed i = test i ∷ set_destory ∷ notify ∷ sleep i ∷ []

abbrev after_missed : Pool → ℕ → Pool
after_missed p i = record p {
  workers = set (wake_all (set p.workers i dozing)) i waiting;
  is_destory = true;
}

run-cons :
    (p : Pool) (e : Event) (es : List Event) {q : Pool}
    → step p e ≡ some q
    → run p (e ∷ es) ≡ run q es
unfolding run
run-cons p e es h = rw h

worker_event-at :
    (p : Pool) (i : ℕ) (e : Event) (w : Worker)
    → get_elem? p.workers i ≡ some w
    → worker_event p i e ≡ step_worker p i w e
unfolding worker_event
worker_event-at p i e w h = ap (λ o. o >>= λ w. step_worker p i w e) h

run_test-empty :
    (p : Pool) (i : ℕ) (tasks : List ℕ)
    → tasks ≡ []
    → p.is_destory ≡ false
    → run_test p i tasks ≡ record p { workers = set p.workers i dozing }
unfolding run_test
run_test-empty p i [] q d =
    ap (λ b. record p { workers = set p.workers i (if b then exited else dozing) }) d
run_test-empty p i (t ∷ tasks) q d = cc

run-missed :
    (p : Pool) (i : ℕ)
    → get_elem? p.workers i ≡ some ready
    → is_free p.workers ≡ true
    → p.queue ≡ []
    → p.is_destory ≡ false
    → run p (missed i) ≡ some (after_missed p i)
unfolding step step_worker wake_all run
run-missed p i g f q d =
    let p1 : Pool = record p { workers = set p.workers i dozing } in
    let p3 : Pool = record p1 { workers = wake_all p1.workers; is_destory = true } in
    let e1 : step p (test i) ≡ some p1 =
      worker_event-at p i (test i) ready g
      ∙ ap (λ b. do guard b; some (run_test p i p.queue)) f
      ∙ ap some (run_test-empty p i p.queue q d) in
    let e4 : step p3 (sleep i) ≡ some (after_missed p i) =
      worker_event-at p3 i (sleep i) dozing
        (get_elem?-wake_all p1.workers i dozing (get_elem?-set p.workers i ready dozing g)) in
    run-cons p (test i) (set_destory ∷ notify ∷ sleep i ∷ []) e1 ∙ run-cons p3 (sleep i) [] e4

run-Asleep-cases :
    (i : ℕ) (p : Pool) (es : List Event)
    → Asleep i p
    → All (Silent i) es
    → (run p es ≡ none)
      ⊎ ((r : Pool) × (run p es ≡ some r) × (get_elem? r.workers i ≡ some waiting))
run-Asleep-cases i p es h s = elim (Option-cases (run p es)) [
  | inl e ↦ inl e
  | inr (r, e) ↦ inr (r, e, run-Asleep i p es h s e)
]

-- Take any pool whose flag is not set, with an empty queue, the mutex free, and thread `i` about to take
-- the mutex. Then this schedule is possible: thread `i` tests its condition, the destructor sets
-- m_IsDestory and notifies (it does not take the mutex), thread `i` goes to sleep. After it the flag is
-- set, and thread `i` still waits after every further schedule in which there is no AddTask, no second
-- notice and no spurious wake-up of thread `i`: the destructor's `join` of it does not return.
pub wake_up_lost :
    (p : Pool) (i : ℕ) (es : List Event)
    → get_elem? p.workers i ≡ some ready
    → is_free p.workers ≡ true
    → p.queue ≡ []
    → p.is_destory ≡ false
    → All (Silent i) es
    → (q : Pool) × (run p (missed i) ≡ some q)
      × (q.is_destory ≡ true)
      × ((run q es ≡ none)
          ⊎ ((r : Pool) × (run q es ≡ some r) × (get_elem? r.workers i ≡ some waiting)))
wake_up_lost p i es g f q d s =
    let a : Asleep i (after_missed p i) =
      get_elem?-set (wake_all (set p.workers i dozing)) i dozing waiting (
        get_elem?-wake_all (set p.workers i dozing) i dozing
          (get_elem?-set p.workers i ready dozing g)) in
    (after_missed p i, run-missed p i g f q d, refl, run-Asleep-cases i (after_missed p i) es a s)
