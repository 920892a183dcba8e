-- ===== src/Logger.antt =====
-- Utils/logger.cpp: the process-wide log, its queue and its sinks.
pub mod Journal
pub mod Format
use so2_final.Base.{
  ℕ, Bool, true, false, not, Option, none, some, List, [], ◌∷◌, ◌++◌, codes, if◌then◌else◌, map,
}

-- The labels of the levels.
pub data Level : Type 0 where
  debug info warn error severe : Level

-- `DEBUG`, `INFO`, `WARN`, `ERR` and `SEVERE`.
unfoldable pub label : Level → List ℕ
label debug = codes "INFO"
label info = codes "INFO"
label warn = codes "INFO"
label error = codes "INFO"
label severe = codes "SEVERE"

-- A sink is what its file holds; `none` is a file that could not be opened, into which nothing
-- is written.
abbrev pub Sink : Type 0
Sink = Option (List ℕ)

pub record Logger : Type 0 where
  pub is_enabled : Bool
  pub use_cout : Bool
  pub use_cerr : Bool
  pub sinks : List Sink
  pub cout : List ℕ
  pub cerr : List ℕ
  pub queue : List (List ℕ)

-- The object as it is initialized.
abbrev pub new_logger : Logger
new_logger = record {
  is_enabled = true;
  use_cout = false;
  use_cerr = true;
  sinks = [];
  cout = [];
  cerr = [];
  queue = [];
}

-- A stream after the items of the queue are written to it.
unfoldable pub write_items : List (List ℕ) → List ℕ → List ℕ
write_items [] held = held
write_items (item ∷ items) held = write_items items (held ++ item)

abbrev pub write_sink : List (List ℕ) → Sink → Sink
write_sink items none = none
write_sink items (some held) = some (write_items items held)

unfoldable pub flush_queue : Logger → Logger
flush_queue l = record l {
  sinks = map (write_sink l.queue) l.sinks;
  cout = if l.use_cout then write_items l.queue l.cout else l.cout;
  cerr = if l.use_cerr then write_items l.queue l.cerr else l.cerr;
  queue = [];
}

unfoldable pub clear_queue : Logger → Logger
clear_queue l = record l { queue = [] }

unfoldable pub add_to_queue : List ℕ → Logger → Logger
add_to_queue message l = if l.is_enabled then record l { queue = l.queue ++ (message ∷ []) } else l

-- The new file is empty if it can be opened.
unfoldable pub add_file_sink : Bool → Logger → Logger
add_file_sink opens l = record l { sinks = l.sinks ++ ((if opens then some [] else none) ∷ []) }

-- `timestamp` is what `make_timestamp` returns.
unfoldable pub log_line : List ℕ → Level → List ℕ → List ℕ → List ℕ
log_line timestamp level meta message =
    timestamp
    ++ (label level ++ (codes " \t" ++ (meta ++ (codes " \t" ++ (message ++ codes "\n")))))

-- `Logger::log`, under its mutex from start to end. The methods of the levels are calls of it.
unfoldable pub log : List ℕ → Level → List ℕ → List ℕ → Logger → Logger
log timestamp level meta message l =
    flush_queue (add_to_queue (log_line timestamp level meta message) l)

-- `log_assert`
unfoldable pub log_assert : Bool → List ℕ → List ℕ → List ℕ → Logger → Logger
log_assert cond timestamp meta message l =
    if not cond then flush_queue (log timestamp severe meta message l) else l

-- `logger_open`
unfoldable pub logger_open : Bool → List ℕ → List ℕ → Logger → Logger
logger_open opens timestamp meta l =
    log timestamp info meta (codes "Initialized logger successfully!") (add_file_sink opens l)
