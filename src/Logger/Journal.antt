-- ===== src/Logger/Journal.antt =====
-- What the sinks hold after any number of calls.
use so2_final.Base.{
  ℕ, ◌≡◌, refl, sym, ap, ◌∙◌, true, none, some, List, [], ◌∷◌, ◌++◌, map, append_assoc, append-nil,
  if◌then◌else◌, arith,
}
use so2_final.Logger.{
  Level, Logger, Sink, write_items, write_sink, flush_queue, add_to_queue, log_line, log,
}

-- The arguments of a call of `log`, with the time at which it is made.
pub record Entry : Type 0 where
  pub timestamp : List ℕ
  pub level : Level
  pub meta : List ℕ
  pub message : List ℕ

-- The calls of all threads, in the order in which they take the mutex.
pub log_all : List Entry → Logger → Logger
log_all [] l = l
log_all (e ∷ es) l = log_all es (log e.timestamp e.level e.meta e.message l)

-- The lines of the entries, one behind the other.
abbrev pub journal : List Entry → List ℕ
journal [] = []
journal (e ∷ es) = log_line e.timestamp e.level e.meta e.message ++ journal es

-- A stream to which the text is added.
abbrev pub extend : List ℕ → Sink → Sink
extend text none = none
extend text (some held) = some (held ++ text)

extend-extend :
    (t u : List ℕ) (ss : List Sink) → map (extend u) (map (extend t) ss) ≡ map (extend (t ++ u)) ss
extend-extend t u [] = refl
extend-extend t u (none ∷ ss) = ap (◌∷◌ none) (extend-extend t u ss)
extend-extend t u (some held ∷ ss) = rw (extend-extend t u ss, append_assoc held t u)

extend-nil : (ss : List Sink) → map (extend []) ss ≡ ss
extend-nil [] = refl
extend-nil (none ∷ ss) = ap (◌∷◌ none) (extend-nil ss)
extend-nil (some held ∷ ss) = rw (extend-nil ss, append-nil held)

write_sink_single : (t : List ℕ) (ss : List Sink) → map (write_sink (t ∷ [])) ss ≡ map (extend t) ss
unfolding write_items
write_sink_single t [] = refl
write_sink_single t (none ∷ ss) = ap (◌∷◌ none) (write_sink_single t ss)
write_sink_single t (some held ∷ ss) = rw (write_sink_single t ss)

-- A logger to whose streams a text has been added.
abbrev pub extended : List ℕ → Logger → Logger
extended text l = record l {
  sinks = map (extend text) l.sinks;
  cout = if l.use_cout then l.cout ++ text else l.cout;
  cerr = if l.use_cerr then l.cerr ++ text else l.cerr;
  queue = [];
}

queued :
    (t : List ℕ) (l : Logger)
    → l.is_enabled ≡ true
    → l.queue ≡ []
    → add_to_queue t l ≡ record l { queue = t ∷ [] }
unfolding add_to_queue
queued t l on empty = ground arith

flushed : (t : List ℕ) (l : Logger) → flush_queue (record l { queue = t ∷ [] }) ≡ extended t l
unfolding flush_queue write_items
flushed t l = rw (write_sink_single t l.sinks)

log-extended :
    (e : Entry) (l : Logger)
    → l.is_enabled ≡ true
    → l.queue ≡ []
    → log e.timestamp e.level e.meta e.message l
      ≡ extended (log_line e.timestamp e.level e.meta e.message) l
unfolding log
log-extended e l on empty =
    let t = log_line e.timestamp e.level e.meta e.message in
    ap flush_queue (queued t l on empty) ∙ flushed t l

extended-extended : (t u : List ℕ) (l : Logger) → extended u (extended t l) ≡ extended (t ++ u) l
extended-extended t u l =
    rw (extend-extend t u l.sinks)
      (ground (arith, append_assoc l.cout t u, append_assoc l.cerr t u))

extended-nil : (l : Logger) → l.queue ≡ [] → extended [] l ≡ l
extended-nil l empty =
    rw (extend-nil l.sinks) (ground (arith, append-nil l.cout, append-nil l.cerr))

-- Any calls of `log` in the order in which they take the mutex, with the logger enabled and
-- nothing in its queue, add exactly the lines of the calls, in this order, to every file sink that
-- is open and to those of `cout` and `cerr` that are in use, change no other stream, and leave the
-- queue empty.
pub log_all-journal :
    (es : List Entry) (l : Logger)
    → l.is_enabled ≡ true
    → l.queue ≡ []
    → log_all es l ≡ extended (journal es) l
unfolding log_all
log_all-journal [] l on empty = sym (extended-nil l empty)
log_all-journal (e ∷ es) l on empty =
    let t = log_line e.timestamp e.level e.meta e.message in
    ap (log_all es) (log-extended e l on empty)
    ∙ log_all-journal es (extended t l) on refl
    ∙ extended-extended t (journal es) l
