-- ===== src/Device/Mailbox.antt =====
-- `Device::sendPushTo` and `Device::pushThread`: one command at a time is handed from the thread
-- that passes a change on to the thread that pushes it to the device. `push_lock` is locked by
-- the first and unlocked by the second.
pub mod Handover
pub mod Rounds
use so2_final.Base.{
  ℕ, Bool, true, false, Option, none, some, List, codes, if◌then◌else◌, ◌==◌, M, Result, ok, err,
  hang, ◌>>=◌, ◌>>◌, return,
}
use so2_final.Network.Packet.{Packet, PacketType, number, write, delete, max_packet_size}
use so2_final.Network.Channel.{Channel, send_text}
use so2_final.Files.System.{FileSystem}
use so2_final.Files.Manager.{FileManager}
use so2_final.Transfer.{Host, on_conn, send_file_in_chunks}
use so2_final.Device.Text.{first_word}

pub record Mailbox : Type 0 where
  pub locked : Bool
  pub send_push : Bool
  pub push_type : ℕ
  pub push_command : List ℕ
  pub stop_requested : Bool

-- The fields as the constructor of `Device` sets them; `push_type` is not set.
abbrev pub new_mailbox : ℕ → Mailbox
new_mailbox unset = record {
  locked = false;
  send_push = false;
  push_type = unset;
  push_command = codes "";
  stop_requested = false;
}

-- `none`: the caller waits at `push_lock`.
unfoldable pub send_push_to : ℕ → List ℕ → Mailbox → Option Mailbox
send_push_to kind command m =
    if m.locked
    then none
    else some
        (record m { locked = true; send_push = true; push_type = kind; push_command = command })

module _ (C : Channel) (F : FileSystem) (f : FileManager) where
  -- What a round sends to the device.
  unfoldable pub push_command_to : ℕ → List ℕ → M (Host C F) (Unit {0})
  push_command_to kind command =
      if kind == number write
      then (do
        on_conn C F (send_text C write 1 command)
        send_file_in_chunks C F f max_packet_size (first_word command))
      else (if kind == number delete then on_conn C F (send_text C delete 1 command) else return tt)

  -- What becomes of the mailbox as it is behind the push: an exception ends the thread, and leaves
  -- the lock.
  abbrev after_push : Mailbox → Result (Host C F) (Unit {0}) → Option (Mailbox × Host C F)
  after_push m (ok a h) = some (record m { send_push = false; locked = false }, h)
  after_push m (err e h) = some (record m { stop_requested = true }, h)
  after_push m (hang w) = none

  -- A round of the loop; `none` while the thread waits, or if a call in it has no result.
  -- `stops` says whether another thread tells the device to stop between the test and the end of
  -- the push. It can change nothing else of the mailbox, since the lock is held.
  unfoldable pub push_round : Bool → Mailbox × Host C F → Option (Mailbox × Host C F)
  unfolding push_command_to
  push_round stops (m, h) =
      if m.stop_requested
      then some (m, h)
      else if m.send_push
      then after_push (record m { stop_requested = stops })
          (push_command_to m.push_type m.push_command h)
      else none
