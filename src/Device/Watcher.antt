-- ===== src/Device/Watcher.antt =====
-- `Device::fileWatcherThread`: the device tells of a written or deleted file. What a round does up
-- to the call of `handle_new_push`; Device.Relay has the whole round.
pub mod Settle
pub mod Writing
pub mod Deleting
use so2_final.Base.{
  ℕ, zero, suc, Bool, true, false, not, List, ◌++◌, codes, if◌then◌else◌, ◌==◌, M, ◌>>=◌, ◌>>◌,
  return, hang,
}
use so2_final.Network.Packet.{Packet, PacketType, number, write, delete}
use so2_final.Network.Channel.{Channel}
use so2_final.Files.System.{FileSystem, FilePath}
use so2_final.Files.Manager.{
  FileManager, create_file, is_file_exists, delete_file, check_file_hash_changed, rename_file,
}
use so2_final.Transfer.{Host, on_conn, on_files, build_file}
use so2_final.Device.Text.{c_string}

-- The manager of a client's directory, from the constructor of `ClientManager`.
abbrev pub client_files : List ℕ → FileManager
client_files username = record { base_directory = codes "sync_dir_" ++ username }

abbrev pub copy_name : List ℕ → List ℕ
copy_name name = codes "copy_" ++ name

-- `"./sync_dir_" + username + "/" + name`
abbrev pub dot_path : List ℕ → List ℕ → FilePath
dot_path username name = codes "./sync_dir_" ++ (username ++ (codes "/" ++ name))

module _ (F : FileSystem) (username : List ℕ) where
  replace_original : List ℕ → M F.State Bool
  replace_original name = do
    delete_file F (client_files username) name
    rename_file F (dot_path username (copy_name name)) (dot_path username name)
    return true

  drop_copy : List ℕ → M F.State Bool
  drop_copy name = do delete_file F (client_files username) (copy_name name); return false

  -- From the comparison of the hashes on. The result says whether the change is passed on.
  unfoldable pub settle : List ℕ → M F.State Bool
  unfolding replace_original drop_copy
  settle name = do
    changed ←
        check_file_hash_changed F (dot_path username name) (dot_path username (copy_name name))
    if changed then replace_original name else drop_copy name

  create_missing : List ℕ → M F.State (Unit {0})
  create_missing name s =
      if not (is_file_exists F (client_files username) name s)
      then create_file F (client_files username) name s
      else return tt s

  unfoldable pub delete_watched : List ℕ → M F.State Bool
  delete_watched name s =
      if is_file_exists F (client_files username) name s
      then (do delete_file F (client_files username) name; return true) s
      else return false s

  module _ (C : Channel) where
    -- `buildFile(copy_name)` and what follows it.
    receive_copy : ℕ → List ℕ → M (Host C F) Bool
    receive_copy fuel name = do
      build_file C F (client_files username) fuel (copy_name name)
      on_files C F (settle name)

    unfoldable pub write_watched : ℕ → List ℕ → M (Host C F) Bool
    unfolding create_missing receive_copy
    write_watched fuel name = do
      on_files C F (create_missing name)
      on_files C F (create_file F (client_files username) (copy_name name))
      receive_copy fuel name

    -- The body of the loop behind `receivePacket`, up to the call of `handle_new_push`; the result
    -- says whether it comes to that call. The fuel bounds the packets of a file.
    unfoldable pub watch_packet : ℕ → Packet → M (Host C F) Bool
    unfolding write_watched delete_watched
    watch_packet fuel p = do
      name ← c_string p.payload
      if p.kind == number write
          then write_watched fuel name
          else (if p.kind == number delete
              then on_files C F (delete_watched name)
              else return false)

    -- A round of the loop, up to the call of `handle_new_push` if it comes to that.
    unfoldable pub watch_round : ℕ → M (Host C F) Bool
    unfolding watch_packet
    watch_round fuel = do p ← on_conn C F C.receive; watch_packet fuel p
