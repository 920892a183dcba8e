-- ===== src/Client/Pushes.antt =====
-- `Client::handlePushThread`: a round of the thread that takes the server's changes.
pub mod Deletion
pub mod Change
use so2_final.Base.{ℕ, if◌then◌else◌, ◌==◌, M, ◌>>=◌, ◌>>◌, return}
use so2_final.Network.Packet.{Packet, number, write, delete}
use so2_final.Network.Channel.{Channel}
use so2_final.Files.System.{FileSystem}
use so2_final.Files.Manager.{clear_file, delete_file}
use so2_final.Transfer.{Host, on_conn, on_files, receive_push}
use so2_final.Device.Text.{c_string, first_word}
use so2_final.Client.Shell.{sync_dir}

module _ (C : Channel) (F : FileSystem) where
  -- The fuel bounds the packets of a file.
  unfoldable pub take_change : ℕ → Packet → M (Host C F) (Unit {0})
  take_change fuel p = do
    text ← c_string p.payload
    if p.kind == number write
        then (do
          on_files C F (clear_file F sync_dir (first_word text))
          receive_push C F sync_dir p fuel (first_word text))
        else (if p.kind == number delete
            then on_files C F (delete_file F sync_dir (first_word text))
            else return tt)

  unfoldable pub client_push_round : ℕ → M (Host C F) (Unit {0})
  unfolding take_change
  client_push_round fuel = do p ← on_conn C F C.receive; take_change fuel p
