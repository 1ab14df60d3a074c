-- ===== src/Server/Logger.antt =====
-- Logger.hpp: the lines that threads hand over, and the thread that writes them in batches. A run is a
-- sequence of atomic steps, each under the mutex or by the writing thread alone.
use socket_message.Prelude.{
  ℕ, ◌≡◌, Bool, true, false, Option, none, some, List, [], ◌∷◌, ◌++◌, concat, ◌>>=◌, if◌then◌else◌,
}
pub mod Order
mod Runs

-- LoggerLevel
pub data Level : Type 0 where
  info debug warn error : Level

-- A call of Log: its level and arguments, as the texts that `<<` makes of them.
pub record Line : Type 0 where
  pub level : Level
  pub texts : List (List ℕ)

unfoldable pub level_name : Level → List ℕ
level_name info = 73 ∷ 78 ∷ 70 ∷ 79 ∷ []
level_name debug = 68 ∷ 69 ∷ 66 ∷ 85 ∷ 71 ∷ []
level_name warn = 87 ∷ 65 ∷ 82 ∷ 78 ∷ []
level_name error = 69 ∷ 82 ∷ 82 ∷ 79 ∷ 82 ∷ []

-- WriteHeadLog, with the text of GetCurrentSystemTime.
unfoldable pub write_head_log : List ℕ → Level → List ℕ
write_head_log time level = time ++ (32 ∷ 32 ∷ 91 ∷ (level_name level ++ (93 ∷ 32 ∷ 32 ∷ [])))

-- WriteLog: the arguments one after another, and `endl`.
unfoldable pub write_log : List (List ℕ) → List ℕ
write_log texts = concat texts ++ 10 ∷ []

-- LogTask
unfoldable pub log_task : List ℕ → Line → List ℕ
log_task time line = write_head_log time line.level ++ write_log line.texts

-- Where the writing thread is: at its wait, between the lines of a batch, or returned.
pub data Place : Type 0 where
  at_wait writing returned : Place

-- `queue` is m_LogVector, `batch` what is left of tempLogVector, `out` the text written; `logged` and
-- `written` record the lines handed over and those that the thread has written.
pub record Logger : Type 0 where
  pub queue : List Line
  pub batch : List Line
  pub is_destory : Bool
  pub place : Place
  pub out : List ℕ
  pub logged : List Line
  pub written : List Line

unfoldable pub new_logger : Logger
new_logger = record {
  queue = [];
  batch = [];
  is_destory = false;
  place = at_wait;
  out = [];
  logged = [];
  written = [];
}

-- Log
unfoldable pub log : Line → Logger → Logger
log line l = record l { queue = l.queue ++ line ∷ []; logged = l.logged ++ line ∷ [] }

-- The destructor up to its join.
unfoldable pub set_destory : Logger → Logger
set_destory l = record l { is_destory = true }

-- The thread behind its wait, by what is in the queue: a batch, or the return where the flag is set. With
-- neither it goes on waiting.
unfoldable pub take_batch : List Line → Logger → Option Logger
take_batch [] l = if l.is_destory then some (record l { place = returned }) else none
take_batch (x ∷ xs) l = some (record l { queue = []; batch = l.batch ++ (x ∷ xs); place = writing })

-- One `item()`, or the end of the loop over the batch.
unfoldable pub write_item : List ℕ → List Line → Logger → Option Logger
write_item time [] l = some (record l { batch = []; place = at_wait })
write_item time (x ∷ xs) l =
    some (record l { batch = xs; out = l.out ++ log_task time x; written = l.written ++ x ∷ [] })

unfoldable pub work : List ℕ → Place → Logger → Option Logger
work time at_wait l = take_batch l.queue l
work time writing l = write_item time l.batch l
work time returned l = none

-- `work_event` is a step of the thread at a system time.
pub data Event : Type 0 where
  log_event : Line → Event
  destory_event : Event
  work_event : List ℕ → Event

unfoldable pub step : Event → Logger → Option Logger
step (log_event line) l = some (log line l)
step destory_event l = some (set_destory l)
step (work_event time) l = work time l.place l

unfoldable pub run : List Event → Logger → Option Logger
run [] l = some l
run (e ∷ es) l = do next ← step e l; run es next
