-- ===== src/Server/Logger/Runs.antt =====
-- Two lines, of which the thread has written one.
use socket_message.Prelude.{ℕ, none, some, List, [], ◌∷◌}
use socket_message.Server.Logger.{Line, info, Logger, new_logger, Event, log_event, work_event, run}

abbrev line : ℕ → Line
line n = record { level = info; texts = (n ∷ []) ∷ [] }

abbrev events : List Event
events = log_event (line 1) ∷ log_event (line 2) ∷ work_event [] ∷ work_event [] ∷ []

abbrev half_written : Logger
half_written = elim (run events new_logger) [ none ↦ new_logger | some l ↦ l ]
