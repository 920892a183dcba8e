-- ===== src/Device/Life.antt =====
-- The life of a device: the ends of its three threads, `start`, which joins them, and `stop`. The
-- condition variable `push_cv` is notified without its mutex.
pub mod Joins
pub mod Wakeups
use so2_final.Base.{ℕ, ◌≡◌, Bool, true, false, ◌||◌, some, List}
use so2_final.Device.Mailbox.{Mailbox, new_mailbox, send_push_to}

-- `commandThread` in its loop, and behind it.
pub data CommandPhase : Type 0 where
  receiving notifying command_ended : CommandPhase

-- `pushThread` at the head of its loop; with `push_mutex` at the condition; past the condition
-- that was false, past one that was true; blocked; at its work; at its end.
pub data PushPhase : Type 0 where
  looping checking tested waiting ready pushing push_ended : PushPhase

pub data WatcherPhase : Type 0 where
  watching watcher_ended : WatcherPhase

-- `start`: the joins in their order, and `removeDevice`.
pub data StartPhase : Type 0 where
  joining_command joining_push joining_watcher removing removed : StartPhase

pub record Life : Type 0 where
  pub mailbox : Mailbox
  pub command : CommandPhase
  pub push : PushPhase
  pub watcher : WatcherPhase
  pub start : StartPhase

abbrev pub new_life : ℕ → Life
new_life unset = record {
  mailbox = new_mailbox unset;
  command = receiving;
  push = looping;
  watcher = watching;
  start = joining_command;
}

-- `push_cv.notify_one()` wakes the thread if it is blocked, and does nothing else.
unfoldable pub notify : PushPhase → PushPhase
notify looping = looping
notify checking = checking
notify tested = tested
notify waiting = checking
notify ready = ready
notify pushing = pushing
notify push_ended = push_ended

abbrev pub stopped : Mailbox → Mailbox
stopped m = record m { stop_requested = true }

-- `commandThread`: an exception, the end of the loop, and what stands behind both. Its rounds
-- leave the state as it is.
pub data CommandStep (t : Life) : Life → Type 0 where
  command_fails :
      t.command ≡ receiving
      → CommandStep t (record t { mailbox = stopped t.mailbox; command = notifying })
  command_leaves :
      t.command ≡ receiving
      → t.mailbox.stop_requested ≡ true
      → CommandStep t (record t { command = notifying })
  command_notifies :
      t.command ≡ notifying
      → CommandStep t (record t { command = command_ended; push = notify t.push })

-- `pushThread`
pub data PushStep (t : Life) : Life → Type 0 where
  enters :
      t.push ≡ looping
      → t.mailbox.stop_requested ≡ false
      → PushStep t (record t { push = checking })
  leaves :
      t.push ≡ looping
      → t.mailbox.stop_requested ≡ true
      → PushStep t (record t { push = push_ended })
  tests :
      t.push ≡ checking
      → (t.mailbox.send_push || t.mailbox.stop_requested) ≡ false
      → PushStep t (record t { push = tested })
  blocks : t.push ≡ tested → PushStep t (record t { push = waiting })
  passes :
      t.push ≡ checking
      → (t.mailbox.send_push || t.mailbox.stop_requested) ≡ true
      → PushStep t (record t { push = ready })
  breaks :
      t.push ≡ ready → t.mailbox.stop_requested ≡ true → PushStep t (record t { push = push_ended })
  takes :
      t.push ≡ ready → t.mailbox.stop_requested ≡ false → PushStep t (record t { push = pushing })
  pushes :
      t.push ≡ pushing
      → PushStep t (record t {
        mailbox = record (t.mailbox) { send_push = false; locked = false };
        push = looping;
      })
  push_fails :
      t.push ≡ pushing → PushStep t (record t { mailbox = stopped t.mailbox; push = push_ended })

-- `fileWatcherThread`
pub data WatcherStep (t : Life) : Life → Type 0 where
  watcher_fails :
      t.watcher ≡ watching
      → WatcherStep t (record t { mailbox = stopped t.mailbox; watcher = watcher_ended })
  watcher_leaves :
      t.watcher ≡ watching
      → t.mailbox.stop_requested ≡ true
      → WatcherStep t (record t { watcher = watcher_ended })

-- `start`, with `removeDevice` and `stop` at its end. The joins of `stop` find threads that are
-- joined already.
pub data StartStep (t : Life) : Life → Type 0 where
  joins_command :
      t.start ≡ joining_command
      → t.command ≡ command_ended
      → StartStep t (record t { start = joining_push })
  joins_push :
      t.start ≡ joining_push
      → t.push ≡ push_ended
      → StartStep t (record t { start = joining_watcher })
  joins_watcher :
      t.start ≡ joining_watcher
      → t.watcher ≡ watcher_ended
      → StartStep t (record t { start = removing })
  removes :
      t.start ≡ removing → StartStep t (record t { mailbox = stopped t.mailbox; start = removed })

-- A step of the device's own threads.
pub data OwnStep (t u : Life) : Type 0 where
  by_command : CommandStep t u → OwnStep t u
  by_push : PushStep t u → OwnStep t u
  by_watcher : WatcherStep t u → OwnStep t u
  by_start : StartStep t u → OwnStep t u

-- `sendPushTo`, which the thread of another device calls.
pub data PostStep (t : Life) : Life → Type 0 where
  posts :
      (kind : ℕ) (command : List ℕ) (m : Mailbox)
      → send_push_to kind command t.mailbox ≡ some m
      → PostStep t (record t { mailbox = m; push = notify t.push })

-- Without posts, and with them.
pub data Quiet (s : Life) : Life → Type 0 where
  still : Quiet s s
  own : {t u : Life} → Quiet s t → OwnStep t u → Quiet s u

pub data Reach (s : Life) : Life → Type 0 where
  here : Reach s s
  next : {t u : Life} → Reach s t → OwnStep t u → Reach s u
  post : {t u : Life} → Reach s t → PostStep t u → Reach s u
