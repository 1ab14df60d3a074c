-- ===== src/Server/ThreadPool/Order.antt =====
-- ThreadPool.cpp: the order of the tasks and the count of free threads.
use socket_message.Prelude.{
  ℕ, zero, suc, ◌+◌, ◌-◌, ◌≤◌, ◌≡◌, refl, sym, ap, subst, ◌∙◌, true, false, some, List, [], ◌∷◌,
  ◌++◌, length, get_elem?, set, ltb, if◌then◌else◌, >>=-eq-some, append_assoc, arith, Bool-cases,
  inl, inr, some-injective, length-map,
}
use socket_message.Server.ThreadPool.{
  Worker, ready, dozing, waiting, taken, running, exited, Pool, is_free, woken, wake_all, Event,
  add_task, set_destory, notify, test, sleep, wake, begin, finish, run_test, step_worker,
  worker_event, step, run,
}

-- The threads between the two updates of m_AvailableThreadCount.
abbrev pub is_busy : Worker → ℕ
is_busy (running t) = 1
is_busy w = 0

unfoldable pub busy : List Worker → ℕ
busy [] = 0
busy (w ∷ ws) = is_busy w + busy ws

-- The tasks that AddTask got are those popped and then those queued; each thread is free or busy.
pub record Inv (n : ℕ) (p : Pool) : Type 0 where
  pub order : p.popped ++ p.queue ≡ p.added
  pub size : length p.workers ≡ n
  pub count : p.available + busy p.workers ≡ n

is_busy-le : (w : Worker) → is_busy w ≤ 1
is_busy-le ready = omega arith
is_busy-le dozing = omega arith
is_busy-le waiting = omega arith
is_busy-le (taken t) = omega arith
is_busy-le (running t) = omega arith
is_busy-le exited = omega arith

busy-le : (ws : List Worker) → busy ws ≤ length ws
unfolding busy
busy-le [] = omega arith
busy-le (w ∷ ws) = omega (arith, is_busy-le w, busy-le ws)

busy-set :
    (ws : List Worker) (i : ℕ) (w v : Worker)
    → get_elem? ws i ≡ some w
    → busy (set ws i v) + is_busy w ≡ busy ws + is_busy v
unfolding busy
busy-set [] i w v e = cc
busy-set (x ∷ ws) zero w v e = let q : x ≡ w = cc (e) in omega (arith, ap is_busy q)
busy-set (x ∷ ws) (suc i) w v e = omega (arith, busy-set ws i w v e)

pub length-set : (ws : List Worker) (i : ℕ) (v : Worker) → length (set ws i v) ≡ length ws
length-set [] i v = refl
length-set (x ∷ ws) zero v = refl
length-set (x ∷ ws) (suc i) v = ap suc (length-set ws i v)

is_busy-woken : (w : Worker) → is_busy (woken w) ≡ is_busy w
is_busy-woken ready = refl
is_busy-woken dozing = refl
is_busy-woken waiting = refl
is_busy-woken (taken t) = refl
is_busy-woken (running t) = refl
is_busy-woken exited = refl

busy-wake_all : (ws : List Worker) → busy (wake_all ws) ≡ busy ws
unfolding busy wake_all
busy-wake_all [] = refl
busy-wake_all (w ∷ ws) = omega (arith, is_busy-woken w, busy-wake_all ws)

length-wake_all : (ws : List Worker) → length (wake_all ws) ≡ length ws
unfolding wake_all
length-wake_all ws = length-map woken ws

-- A thread at `w` moves to `v`, and the count of free threads follows it.
move-Inv :
    (n : ℕ) (p : Pool) (i : ℕ) (w v : Worker) (k : ℕ)
    → Inv n p
    → get_elem? p.workers i ≡ some w
    → k + busy (set p.workers i v) ≡ n
    → Inv n (record p { workers = set p.workers i v; available = k })
move-Inv n p i w v k h e c = record {
  order = h.order;
  size = length-set p.workers i v ∙ h.size;
  count = c;
}

idle_move :
    (n : ℕ) (p : Pool) (i : ℕ) (w v : Worker)
    → Inv n p
    → get_elem? p.workers i ≡ some w
    → is_busy w ≡ 0
    → is_busy v ≡ 0
    → p.available + busy (set p.workers i v) ≡ n
idle_move n p i w v h e a b = omega (arith, busy-set p.workers i w v e, h.count)

begin_count :
    (n : ℕ) (p : Pool) (i t : ℕ)
    → Inv n p
    → get_elem? p.workers i ≡ some (taken t)
    → (p.available - 1) + busy (set p.workers i (running t)) ≡ n
begin_count n p i t h e = omega (
  arith,
  busy-set p.workers i (taken t) (running t) e,
  h.count,
  h.size,
  length-set p.workers i (running t),
  busy-le (set p.workers i (running t)),
)

finish_count :
    (n : ℕ) (p : Pool) (i t : ℕ)
    → Inv n p
    → get_elem? p.workers i ≡ some (running t)
    → (p.available + 1) + busy (set p.workers i ready) ≡ n
finish_count n p i t h e = omega (arith, busy-set p.workers i (running t) ready e, h.count)

run_test-Inv :
    (n : ℕ) (p : Pool) (i : ℕ) (tasks : List ℕ)
    → Inv n p
    → get_elem? p.workers i ≡ some ready
    → p.queue ≡ tasks
    → Inv n (run_test p i tasks)
unfolding run_test
run_test-Inv n p i [] h e q =
    elim p.is_destory
      as (λ b. Inv n (record p { workers = set p.workers i (if b then exited else dozing) })) [
        | true ↦
            move-Inv n p i ready exited p.available h e (idle_move n p i ready exited h e refl refl)
        | false ↦
            move-Inv n p i ready dozing p.available h e (idle_move n p i ready dozing h e refl refl)
      ]
run_test-Inv n p i (t ∷ tasks) h e q = record {
  order = append_assoc p.popped (t ∷ []) tasks ∙ ap (◌++◌ p.popped) (sym q) ∙ h.order;
  size = length-set p.workers i (taken t) ∙ h.size;
  count = idle_move n p i ready (taken t) h e refl refl;
}

step_worker-Inv :
    (n : ℕ) (p : Pool) (i : ℕ) (w : Worker) (e : Event) {q : Pool}
    → Inv n p
    → get_elem? p.workers i ≡ some w
    → step_worker p i w e ≡ some q
    → Inv n q
unfolding step_worker
step_worker-Inv n p i ready (test j) h g r = elim (Bool-cases (is_free p.workers)) [
  | inl f ↦ subst (Inv n) (cc (rw (f) at r)) (run_test-Inv n p i p.queue h g refl)
  | inr f ↦ cc (rw (f) at r)
]
step_worker-Inv n p i dozing (sleep j) h g r =
    subst (Inv n) (cc (r))
      (move-Inv n p i dozing waiting p.available h g (idle_move n p i dozing waiting h g refl refl))
step_worker-Inv n p i waiting (wake j) h g r =
    subst (Inv n) (cc (r))
      (move-Inv n p i waiting ready p.available h g (idle_move n p i waiting ready h g refl refl))
step_worker-Inv n p i (taken t) (begin j) h g r =
    subst (Inv n) (cc (r))
      (move-Inv n p i (taken t) (running t) (p.available - 1) h g (begin_count n p i t h g))
step_worker-Inv n p i (running t) (finish j) h g r =
    subst (Inv n) (cc (r))
      (move-Inv n p i (running t) ready (p.available + 1) h g (finish_count n p i t h g))
step_worker-Inv n p i w e h g r = cc

worker_event-Inv :
    (n : ℕ) (p : Pool) (i : ℕ) (e : Event) {q : Pool}
    → Inv n p
    → worker_event p i e ≡ some q
    → Inv n q
unfolding worker_event
worker_event-Inv n p i e h r =
    let (w, g, s) = >>=-eq-some (get_elem? p.workers i) (λ w. step_worker p i w e) r in
    step_worker-Inv n p i w e h g s

add-Inv : (n : ℕ) (p : Pool) (t : ℕ) {q : Pool} → Inv n p → step p (add_task t) ≡ some q → Inv n q
unfolding step
add-Inv n p t h r = elim (Bool-cases (is_free p.workers)) [
  | inl f ↦ subst (Inv n) (some-injective _ _ (rw (f) at r)) (record {
    order = sym (append_assoc p.popped p.queue (t ∷ [])) ∙ ap (λ (l : List ℕ). l ++ t ∷ []) h.order;
    size = length-wake_all p.workers ∙ h.size;
    count = omega (arith, busy-wake_all p.workers, h.count);
  })
  | inr f ↦ cc (rw (f) at r)
]

step-Inv : (n : ℕ) (p : Pool) (e : Event) {q : Pool} → Inv n p → step p e ≡ some q → Inv n q
unfolding step
step-Inv n p (add_task t) h r = add-Inv n p t h r
step-Inv n p set_destory h r =
    subst (Inv n) (some-injective _ _ r)
      (record { order = h.order; size = h.size; count = h.count })
step-Inv n p notify h r = subst (Inv n) (some-injective _ _ r) (record {
  order = h.order;
  size = length-wake_all p.workers ∙ h.size;
  count = omega (arith, busy-wake_all p.workers, h.count);
})
step-Inv n p (test i) h r = worker_event-Inv n p i (test i) h r
step-Inv n p (sleep i) h r = worker_event-Inv n p i (sleep i) h r
step-Inv n p (wake i) h r = worker_event-Inv n p i (wake i) h r
step-Inv n p (begin i) h r = worker_event-Inv n p i (begin i) h r
step-Inv n p (finish i) h r = worker_event-Inv n p i (finish i) h r

pub run-Inv :
    (n : ℕ) (p : Pool) (es : List Event) {q : Pool} → Inv n p → run p es ≡ some q → Inv n q
unfolding run
run-Inv n p [] h r = subst (Inv n) (some-injective _ _ r) h
run-Inv n p (e ∷ es) h r =
    let (m, s, t) = >>=-eq-some (step p e) (λ m. run m es) r in
    run-Inv n m es (step-Inv n p e h s) t

abbrev pub thread_count : ℕ → ℕ
thread_count count = if ltb count 1 then 1 else count
