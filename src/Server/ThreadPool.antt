-- ===== src/Server/ThreadPool.antt =====
-- ThreadPool.cpp: n threads over one queue. A schedule is a list of events, each the next atomic
-- piece of one thread or of the owner; an event that cannot happen is refused.
use socket_message.Prelude.{
  ℕ, zero, suc, ◌+◌, ◌-◌, ◌≡◌, Bool, true, false, not, ◌&&◌, ◌||◌, Option, none, some, List, [],
  ◌∷◌, ◌++◌, map, length, get_elem?, set, replicate, ltb, if◌then◌else◌, ◌>>=◌, ◌>>◌, guard,
}
pub mod Order
pub mod Shutdown
pub mod Asleep

-- A task is named by a number. `ready` is about to lock the mutex; `dozing` holds it and has found its
-- condition false; `waiting` has released it inside `wait`; `taken` has popped a task.
pub data Worker : Type 0 where
  ready dozing waiting : Worker
  taken running : ℕ → Worker
  exited : Worker

pub record Pool : Type 0 where
  pub queue : List ℕ
  pub workers : List Worker
  pub is_destory : Bool
  pub available : ℕ
  -- The tasks that AddTask got, and those that threads popped, in order.
  pub added : List ℕ
  pub popped : List ℕ

-- The constructor.
unfoldable pub new_pool : ℕ → Pool
new_pool count =
    let n : ℕ = if ltb count 1 then 1 else count in
    record {
      queue = [];
      workers = replicate n ready;
      is_destory = false;
      available = n;
      added = [];
      popped = [];
    }

-- The mutex is free: no thread is between its test and its wait.
unfoldable pub is_free : List Worker → Bool
is_free [] = true
is_free (dozing ∷ ws) = false
is_free (w ∷ ws) = is_free ws

abbrev woken : Worker → Worker
woken waiting = ready
woken w = w

-- `notify_all`
unfoldable pub wake_all : List Worker → List Worker
wake_all ws = map woken ws

pub data Event : Type 0 where
  -- The owner: AddTask, and the two halves of the destructor before it joins.
  add_task : ℕ → Event
  set_destory notify : Event
  -- Thread i: lock and test, fall asleep, wake up without notice, and around the task.
  test sleep wake begin finish : ℕ → Event

-- Thread `i` has the lock and sees the queue `tasks`: it pops, or it ends, or its condition is false.
unfoldable pub run_test : Pool → ℕ → List ℕ → Pool
run_test p i [] = record p { workers = set p.workers i (if p.is_destory then exited else dozing) }
run_test p i (t ∷ tasks) = record p {
  queue = tasks;
  workers = set p.workers i (taken t);
  popped = p.popped ++ t ∷ [];
}

-- What thread `i` does next, by the place where it stands.
unfoldable pub step_worker : Pool → ℕ → Worker → Event → Option Pool
step_worker p i ready (test _) = do guard (is_free p.workers); some (run_test p i p.queue)
step_worker p i dozing (sleep _) = some (record p { workers = set p.workers i waiting })
step_worker p i waiting (wake _) = some (record p { workers = set p.workers i ready })
step_worker p i (taken t) (begin _) =
    some (record p { workers = set p.workers i (running t); available = p.available - 1 })
step_worker p i (running t) (finish _) =
    some (record p { workers = set p.workers i ready; available = p.available + 1 })
step_worker p i w e = none

unfoldable pub worker_event : Pool → ℕ → Event → Option Pool
worker_event p i e = get_elem? p.workers i >>= λ w. step_worker p i w e

unfoldable pub step : Pool → Event → Option Pool
step p (add_task t) = do
  guard (is_free p.workers)
  some (record p {
    queue = p.queue ++ t ∷ [];
    workers = wake_all p.workers;
    added = p.added ++ t ∷ [];
  })
step p set_destory = some (record p { is_destory = true })
step p notify = some (record p { workers = wake_all p.workers })
step p (test i) = worker_event p i (test i)
step p (sleep i) = worker_event p i (sleep i)
step p (wake i) = worker_event p i (wake i)
step p (begin i) = worker_event p i (begin i)
step p (finish i) = worker_event p i (finish i)

unfoldable pub run : Pool → List Event → Option Pool
run p [] = some p
run p (e ∷ es) = step p e >>= λ q. run q es
