-- ===== src/Client.antt =====
-- Client/client.cpp: the `download` command of `handleIoThread`, and in the child modules the other
-- commands, the other threads and the constructor.
pub mod Download
pub mod Session
pub mod Commands
pub mod Shell
pub mod Handshake
pub mod Start
pub mod Events
pub mod Pushes
pub mod Turns
use so2_final.Base.{ℕ, Bool, true, false, List, if◌then◌else◌, ◌==◌, M, ◌>>=◌, ◌>>◌, return}
use so2_final.Network.Packet.{Packet, number, download, file_not_found}
use so2_final.Network.Channel.{Channel, send_text}
use so2_final.Files.System.{FileSystem}
use so2_final.Files.Manager.{FileManager, create_file}
use so2_final.Transfer.{Host, on_conn, on_files, receive_file}

module _ (C : Channel) (F : FileSystem) (here : FileManager) where
  -- From the creation of the file on.
  store_download : ℕ → List ℕ → M (Host C F) Bool
  store_download fuel name = do
    on_files C F (create_file F here name)
    receive_file C F here fuel name
    return true

  -- The fuel bounds the packets of the file. The result says whether the server had the file.
  unfoldable pub download_file : ℕ → List ℕ → M (Host C F) Bool
  unfolding store_download
  download_file fuel name = do
    on_conn C F (send_text C download 1 name)
    response ← on_conn C F C.receive
    if response.kind == number file_not_found then return false else store_download fuel name
