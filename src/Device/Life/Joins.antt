-- ===== src/Device/Life/Joins.antt =====
-- When a device is removed.
use so2_final.Base.{ℕ, ◌<◌, ◌≡◌, ◌≢◌, true, ◌⊎◌, arith}
use so2_final.Device.Mailbox.{send_push_to}
use so2_final.Device.Life.{
  Life, StartPhase, receiving, command_ended, push_ended, watcher_ended, joining_command,
  joining_push, joining_watcher, removing, removed, new_life, notify, CommandStep, command_fails,
  command_leaves, command_notifies, PushStep, enters, leaves, tests, blocks, passes, breaks, takes,
  pushes, push_fails, WatcherStep, watcher_fails, watcher_leaves, StartStep, joins_command,
  joins_push, joins_watcher, removes, OwnStep, by_command, by_push, by_watcher, by_start, PostStep,
  posts, Reach, here, next, post,
}

-- How many joins are done.
abbrev pub stage : StartPhase → ℕ
stage joining_command = 0
stage joining_push = 1
stage joining_watcher = 2
stage removing = 3
stage removed = 3

-- A thread has ended only where it is to stop, and is joined only when it has ended.
pub record IsLife (t : Life) : Type 0 where
  pub command_stops : t.command ≢ receiving → t.mailbox.stop_requested ≡ true
  pub push_stops : t.push ≡ push_ended → t.mailbox.stop_requested ≡ true
  pub watcher_stops : t.watcher ≡ watcher_ended → t.mailbox.stop_requested ≡ true
  pub command_joined : 0 < stage t.start → t.command ≡ command_ended
  pub push_joined : 1 < stage t.start → t.push ≡ push_ended
  pub watcher_joined : 2 < stage t.start → t.watcher ≡ watcher_ended

CommandStep-IsLife : {t u : Life} → CommandStep t u → IsLife t → IsLife u
unfolding notify send_push_to
CommandStep-IsLife {t} (command_fails e) v = ground arith
CommandStep-IsLife {t} (command_leaves e q) v = ground arith
CommandStep-IsLife {t} (command_notifies e) v = ground arith

PushStep-IsLife : {t u : Life} → PushStep t u → IsLife t → IsLife u
unfolding notify send_push_to
PushStep-IsLife {t} (enters e q) v = ground arith
PushStep-IsLife {t} (leaves e q) v = ground arith
PushStep-IsLife {t} (tests e q) v = ground arith
PushStep-IsLife {t} (blocks e) v = ground arith
PushStep-IsLife {t} (passes e q) v = ground arith
PushStep-IsLife {t} (breaks e q) v = ground arith
PushStep-IsLife {t} (takes e q) v = ground arith
PushStep-IsLife {t} (pushes e) v = ground arith
PushStep-IsLife {t} (push_fails e) v = ground arith

WatcherStep-IsLife : {t u : Life} → WatcherStep t u → IsLife t → IsLife u
unfolding notify send_push_to
WatcherStep-IsLife {t} (watcher_fails e) v = ground arith
WatcherStep-IsLife {t} (watcher_leaves e q) v = ground arith

StartStep-IsLife : {t u : Life} → StartStep t u → IsLife t → IsLife u
unfolding notify send_push_to
StartStep-IsLife {t} (joins_command e q) v = ground arith
StartStep-IsLife {t} (joins_push e q) v = ground arith
StartStep-IsLife {t} (joins_watcher e q) v = ground arith
StartStep-IsLife {t} (removes e) v = ground arith

PostStep-IsLife : {t u : Life} → PostStep t u → IsLife t → IsLife u
unfolding notify send_push_to
PostStep-IsLife {t} (posts k c m e) v = ground arith

OwnStep-IsLife : {t u : Life} → OwnStep t u → IsLife t → IsLife u
OwnStep-IsLife (by_command st) v = CommandStep-IsLife st v
OwnStep-IsLife (by_push st) v = PushStep-IsLife st v
OwnStep-IsLife (by_watcher st) v = WatcherStep-IsLife st v
OwnStep-IsLife (by_start st) v = StartStep-IsLife st v

pub Reach-IsLife : (unset : ℕ) {t : Life} → Reach (new_life unset) t → IsLife t
Reach-IsLife unset here = ground arith
Reach-IsLife unset (next r st) = OwnStep-IsLife st (Reach-IsLife unset r)
Reach-IsLife unset (post r st) = PostStep-IsLife st (Reach-IsLife unset r)

-- In every order of steps of the three threads of a new device, of `start`, and of posts from
-- other devices: when `start` has come to `removeDevice`, or is through with it, all three threads
-- have ended, and the device has been told to stop.
pub Reach-joined :
    (unset : ℕ) {t : Life}
    → Reach (new_life unset) t
    → (t.start ≡ removing) ⊎ (t.start ≡ removed)
    → (t.command ≡ command_ended)
      × (t.push ≡ push_ended)
      × (t.watcher ≡ watcher_ended)
      × (t.mailbox.stop_requested ≡ true)
Reach-joined unset {t} r at_end =
    let v = Reach-IsLife unset r in
    let all : 2 < stage t.start = ground arith in
    let pushed : t.push ≡ push_ended = v.push_joined (omega arith) in
    (v.command_joined (omega arith), pushed, v.watcher_joined all, v.push_stops pushed)
