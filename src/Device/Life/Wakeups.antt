-- ===== src/Device/Life/Wakeups.antt =====
-- The end of the command thread between the test of the condition and the wait.
use so2_final.Base.{ℕ, ◌≤◌, ◌≡◌, ◌≢◌, refl, ap, true, arith}
use so2_final.Device.Life.{
  Life, receiving, command_ended, tested, waiting, removed, new_life, notify, stopped, CommandStep,
  command_fails, command_leaves, command_notifies, PushStep, enters, leaves, tests, blocks, passes,
  breaks, takes, pushes, push_fails, WatcherStep, watcher_fails, watcher_leaves, StartStep,
  joins_command, joins_push, joins_watcher, removes, OwnStep, by_command, by_push, by_watcher,
  by_start, Quiet, still, own, Reach,
}
use so2_final.Device.Life.Joins.{stage, Reach-IsLife}

-- The push thread is blocked, and the thread that would wake it has ended.
abbrev pub IsAsleep : Life → Type 0
IsAsleep t = (t.push ≡ waiting) × (t.command ≡ command_ended) × (stage t.start ≤ 1)

CommandStep-IsAsleep : {t u : Life} → CommandStep t u → IsAsleep t → IsAsleep u
CommandStep-IsAsleep (command_fails e) v = cc
CommandStep-IsAsleep (command_leaves e q) v = cc
CommandStep-IsAsleep (command_notifies e) v = cc

PushStep-IsAsleep : {t u : Life} → PushStep t u → IsAsleep t → IsAsleep u
PushStep-IsAsleep (enters e q) v = cc
PushStep-IsAsleep (leaves e q) v = cc
PushStep-IsAsleep (tests e q) v = cc
PushStep-IsAsleep (blocks e) v = cc
PushStep-IsAsleep (passes e q) v = cc
PushStep-IsAsleep (breaks e q) v = cc
PushStep-IsAsleep (takes e q) v = cc
PushStep-IsAsleep (pushes e) v = cc
PushStep-IsAsleep (push_fails e) v = cc

WatcherStep-IsAsleep : {t u : Life} → WatcherStep t u → IsAsleep t → IsAsleep u
WatcherStep-IsAsleep (watcher_fails e) v = v
WatcherStep-IsAsleep (watcher_leaves e q) v = v

StartStep-IsAsleep : {t u : Life} → StartStep t u → IsAsleep t → IsAsleep u
StartStep-IsAsleep (joins_command e q) v = (v.0, v.1, omega arith)
StartStep-IsAsleep (joins_push e q) v = cc
StartStep-IsAsleep (joins_watcher e q) v = ground arith
StartStep-IsAsleep (removes e) v = ground arith

OwnStep-IsAsleep : {t u : Life} → OwnStep t u → IsAsleep t → IsAsleep u
OwnStep-IsAsleep (by_command st) v = CommandStep-IsAsleep st v
OwnStep-IsAsleep (by_push st) v = PushStep-IsAsleep st v
OwnStep-IsAsleep (by_watcher st) v = WatcherStep-IsAsleep st v
OwnStep-IsAsleep (by_start st) v = StartStep-IsAsleep st v

Quiet-IsAsleep : {t u : Life} → IsAsleep t → Quiet t u → IsAsleep u
Quiet-IsAsleep v still = v
Quiet-IsAsleep v (own r st) = OwnStep-IsAsleep st (Quiet-IsAsleep v r)

-- In every state that a new device can reach in which the push thread has tested its condition and
-- not yet blocked, and the command thread is in its loop, steps of the device's own threads lead
-- to a state in which the device has been told to stop, and from which, in every order of steps of
-- the device's own threads, without a spurious wake-up, the push thread stays blocked and the
-- device is not removed.
pub Quiet-sleeps :
    (unset : ℕ) {t : Life}
    → Reach (new_life unset) t
    → t.push ≡ tested
    → t.command ≡ receiving
    → (u : Life) × Quiet t u
      × (u.mailbox.stop_requested ≡ true)
      × ((w : Life) → Quiet u w → (w.push ≡ waiting) × (w.start ≢ removed))
unfolding notify
Quiet-sleeps unset {t} r late running =
    let v = Reach-IsLife unset r in
    let u : Life = record t {
      mailbox = stopped t.mailbox;
      command = command_ended;
      push = waiting;
    } in
    let asleep : IsAsleep u = (refl, refl, ground (arith, v.push_joined)) in
    let path : Quiet t u =
      own
        (own (own still (by_command (command_fails running))) (by_command (command_notifies refl)))
        (by_push (blocks (ap notify late))) in
    (u, path, refl, λ w q. let a = Quiet-IsAsleep asleep q in (a.0, λ gone. ground arith))
