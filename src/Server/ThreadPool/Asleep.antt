-- ===== src/Server/ThreadPool/Asleep.antt =====
-- ThreadPool.cpp: a thread that waits sleeps on until it is woken.
use socket_message.Prelude.{
  ℕ, zero, suc, ◌≡◌, ◌≢◌, refl, sym, ap, subst, ◌∙◌, some, List, [], ◌∷◌, get_elem?, set,
  if◌then◌else◌, >>=-eq-some, Bool-cases, inl, inr, some-injective, All,
}
use socket_message.Server.ThreadPool.{
  Worker, ready, dozing, waiting, taken, running, exited, Pool, is_free, Event, add_task,
  set_destory, notify, test, sleep, wake, begin, finish, run_test, step_worker, worker_event, step,
  run,
}

-- Nothing wakes thread `i` in this event: no notice, and no wake-up without one of that thread.
abbrev pub Silent : ℕ → Event → Type 0
Silent i (add_task t) = ⊥
Silent i notify = ⊥
Silent i (wake j) = i ≢ j
Silent i e = Unit

get_elem?-set_ne :
    (ws : List Worker) (i j : ℕ) (v : Worker) → i ≢ j → get_elem? (set ws j v) i ≡ get_elem? ws i
get_elem?-set_ne [] i j v h = refl
get_elem?-set_ne (x ∷ ws) zero zero v h = absurd (h refl)
get_elem?-set_ne (x ∷ ws) zero (suc j) v h = refl
get_elem?-set_ne (x ∷ ws) (suc i) zero v h = refl
get_elem?-set_ne (x ∷ ws) (suc i) (suc j) v h = get_elem?-set_ne ws i j v (λ e. h (ap suc e))

-- Thread `i` sleeps on.
abbrev pub Asleep : ℕ → Pool → Type 0
Asleep i p = get_elem? p.workers i ≡ some waiting

move_Asleep :
    (i j : ℕ) (p : Pool) (w v : Worker)
    → Asleep i p
    → get_elem? p.workers j ≡ some w
    → w ≢ waiting
    → get_elem? (set p.workers j v) i ≡ some waiting
move_Asleep i j p w v h g n =
    get_elem?-set_ne p.workers i j v
      (λ e. n (some-injective _ _ (sym g ∙ ap (get_elem? p.workers) (sym e) ∙ h)))
    ∙ h

run_test-Asleep :
    (i j : ℕ) (p : Pool) (tasks : List ℕ)
    → Asleep i p
    → get_elem? p.workers j ≡ some ready
    → Asleep i (run_test p j tasks)
unfolding run_test
run_test-Asleep i j p [] h g =
    move_Asleep i j p ready (if p.is_destory then exited else dozing) h g (λ e. cc)
run_test-Asleep i j p (t ∷ tasks) h g = move_Asleep i j p ready (taken t) h g (λ e. cc)

test-Asleep :
    (i j k : ℕ) (p : Pool) (w : Worker) {q : Pool}
    → Asleep i p
    → get_elem? p.workers j ≡ some w
    → step_worker p j w (test k) ≡ some q
    → Asleep i q
unfolding step_worker
test-Asleep i j k p ready h g r = elim (Bool-cases (is_free p.workers)) [
  | inl f ↦ subst (Asleep i) (some-injective _ _ (rw (f) at r)) (run_test-Asleep i j p p.queue h g)
  | inr f ↦ cc (rw (f) at r)
]
test-Asleep i j k p w h g r = cc

begin-Asleep :
    (i j k : ℕ) (p : Pool) (w : Worker) {q : Pool}
    → Asleep i p
    → get_elem? p.workers j ≡ some w
    → step_worker p j w (begin k) ≡ some q
    → Asleep i q
unfolding step_worker
begin-Asleep i j k p (taken t) h g r =
    subst (Asleep i) (some-injective _ _ r) (move_Asleep i j p (taken t) (running t) h g (λ e. cc))
begin-Asleep i j k p w h g r = cc

finish-Asleep :
    (i j k : ℕ) (p : Pool) (w : Worker) {q : Pool}
    → Asleep i p
    → get_elem? p.workers j ≡ some w
    → step_worker p j w (finish k) ≡ some q
    → Asleep i q
unfolding step_worker
finish-Asleep i j k p (running t) h g r =
    subst (Asleep i) (some-injective _ _ r) (move_Asleep i j p (running t) ready h g (λ e. cc))
finish-Asleep i j k p w h g r = cc

sleep-Asleep :
    (i j k : ℕ) (p : Pool) (w : Worker) {q : Pool}
    → Asleep i p
    → get_elem? p.workers j ≡ some w
    → step_worker p j w (sleep k) ≡ some q
    → Asleep i q
unfolding step_worker
sleep-Asleep i j k p dozing h g r =
    subst (Asleep i) (some-injective _ _ r) (move_Asleep i j p dozing waiting h g (λ e. cc))
sleep-Asleep i j k p w h g r = cc

wake-Asleep :
    (i j k : ℕ) (p : Pool) (w : Worker) {q : Pool}
    → Asleep i p
    → i ≢ j
    → step_worker p j w (wake k) ≡ some q
    → Asleep i q
unfolding step_worker
wake-Asleep i j k p waiting h n r =
    subst (Asleep i) (some-injective _ _ r) (get_elem?-set_ne p.workers i j ready n ∙ h)
wake-Asleep i j k p w h n r = cc

step-Asleep :
    (i : ℕ) (p : Pool) (e : Event) {q : Pool}
    → Asleep i p
    → Silent i e
    → step p e ≡ some q
    → Asleep i q
unfolding step worker_event
step-Asleep i p (add_task t) h s r = absurd s
step-Asleep i p set_destory h s r = subst (Asleep i) (some-injective _ _ r) h
step-Asleep i p notify h s r = absurd s
step-Asleep i p (test j) h s r =
    let (w, g, t) = >>=-eq-some (get_elem? p.workers j) (λ w. step_worker p j w (test j)) r in
    test-Asleep i j j p w h g t
step-Asleep i p (sleep j) h s r =
    let (w, g, t) = >>=-eq-some (get_elem? p.workers j) (λ w. step_worker p j w (sleep j)) r in
    sleep-Asleep i j j p w h g t
step-Asleep i p (wake j) h s r =
    let (w, g, t) = >>=-eq-some (get_elem? p.workers j) (λ w. step_worker p j w (wake j)) r in
    wake-Asleep i j j p w h s t
step-Asleep i p (begin j) h s r =
    let (w, g, t) = >>=-eq-some (get_elem? p.workers j) (λ w. step_worker p j w (begin j)) r in
    begin-Asleep i j j p w h g t
step-Asleep i p (finish j) h s r =
    let (w, g, t) = >>=-eq-some (get_elem? p.workers j) (λ w. step_worker p j w (finish j)) r in
    finish-Asleep i j j p w h g t

pub run-Asleep :
    (i : ℕ) (p : Pool) (es : List Event) {q : Pool}
    → Asleep i p
    → All (Silent i) es
    → run p es ≡ some q
    → Asleep i q
unfolding run
run-Asleep i p [] h s r = subst (Asleep i) (some-injective _ _ r) h
run-Asleep i p (e ∷ es) h s r =
    let (m, a, b) = >>=-eq-some (step p e) (λ m. run m es) r in
    run-Asleep i m es (step-Asleep i p e h s.0 a) s.1 b
