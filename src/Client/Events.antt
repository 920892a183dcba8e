-- ===== src/Client/Events.antt =====
-- `Client::handleFileThread`: what the client tells of the changes in its directory.
pub mod Deletion
pub mod Change
pub mod Spreading
pub mod Buffer
use so2_final.Base.{ℕ, Bool, not, List, [], ◌∷◌, ltb, ◌==◌, if◌then◌else◌, M, ◌>>=◌, ◌>>◌, return}
use Prim.Native.Nat.{bit_and}
use so2_final.Network.Packet.{write, delete, max_packet_size}
use so2_final.Network.Channel.{Channel, send_text}
use so2_final.Files.System.{FileSystem}
use so2_final.Transfer.{Host, on_conn, send_file_in_chunks}
use so2_final.Client.Shell.{sync_dir}

-- A `struct inotify_event`; `name` is its C string.
pub record Event : Type 0 where
  pub mask : ℕ
  pub len : ℕ
  pub name : List ℕ

-- `IN_CLOSE_WRITE` and `IN_DELETE` of the library.
abbrev pub in_close_write : ℕ
in_close_write = 0x8

abbrev pub in_delete : ℕ
in_delete = 0x200

-- `event->mask & flag`, as a condition.
unfoldable pub has : ℕ → Event → Bool
has flag e = not (bit_and e.mask flag == 0)

module _ (C : Channel) (F : FileSystem) where
  -- A file that was written is sent under `watcher_push_lock`.
  unfoldable pub send_change : List ℕ → M (Host C F) (Unit {0})
  send_change name = do
    on_conn C F (send_text C write 1 name)
    send_file_in_chunks C F sync_dir max_packet_size name

  unfoldable pub handle_event : Event → M (Host C F) (Unit {0})
  unfolding send_change
  handle_event e =
      if ltb 0 e.len
      then (if has in_close_write e
          then send_change e.name
          else (if has in_delete e then on_conn C F (send_text C delete 1 e.name) else return tt))
      else return tt

  -- The loop over the events of one `read`.
  unfoldable pub handle_events : List Event → M (Host C F) (Unit {0})
  unfolding handle_event
  handle_events [] = return tt
  handle_events (e ∷ es) = do handle_event e; handle_events es
