-- ===== src/Tests/Lives.antt =====
-- The theorems on the life of a device at concrete runs.
use so2_final.Base.{◌≡◌, refl, ◌≢◌, true, inl}
use so2_final.Device.Mailbox.{new_mailbox}
use so2_final.Device.Life.{
  Life, command_ended, tested, waiting, push_ended, watcher_ended, removing, removed, new_life,
  notify, stopped, command_fails, command_notifies, enters, leaves, tests, watcher_leaves,
  joins_command, joins_push, joins_watcher, by_command, by_push, by_watcher, by_start, Quiet, Reach,
  here, next,
}
use so2_final.Device.Life.Joins.{Reach-joined}
use so2_final.Device.Life.Wakeups.{Quiet-sleeps}

-- The client has gone, and the three threads have ended.
abbrev ending : Life
ending = record {
  mailbox = stopped (new_mailbox 0);
  command = command_ended;
  push = push_ended;
  watcher = watcher_ended;
  start = removing;
}

ends : Reach (new_life 0) ending
unfolding notify
ends =
    next
      (next
        (next
          (next
            (next
              (next (next here (by_command (command_fails refl)))
                (by_command (command_notifies refl)))
              (by_push (leaves refl refl)))
            (by_watcher (watcher_leaves refl refl)))
          (by_start (joins_command refl refl)))
        (by_start (joins_push refl refl)))
      (by_start (joins_watcher refl refl))

Reach-joined_example :
    (ending.command ≡ command_ended)
    × (ending.push ≡ push_ended)
    × (ending.watcher ≡ watcher_ended)
    × (ending.mailbox.stop_requested ≡ true)
Reach-joined_example = Reach-joined 0 ends (inl refl)

abbrev between : Life
between = record (new_life 0) { push = tested }

reaches_between : Reach (new_life 0) between
reaches_between = next (next here (by_push (enters refl refl))) (by_push (tests refl refl))

Quiet-sleeps_example :
    (u : Life) × Quiet between u
    × (u.mailbox.stop_requested ≡ true)
    × ((w : Life) → Quiet u w → (w.push ≡ waiting) × (w.start ≢ removed))
Quiet-sleeps_example = Quiet-sleeps 0 reaches_between refl refl
