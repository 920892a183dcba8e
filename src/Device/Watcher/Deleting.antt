-- ===== src/Device/Watcher/Deleting.antt =====
-- A file that a device has deleted.
use so2_final.Base.{ℕ, ◌≡◌, true, false, some, none, List, ok, >>=-ok, return}
use so2_final.Network.Packet.{number, make_packet, delete}
use so2_final.Network.Channel.{Channel, IsChannel}
use so2_final.Files.System.{FileSystem, FilePath, IsFileSystem, IsWilling}
use so2_final.Files.Manager.{path, is_file_exists, delete_file}
use so2_final.Files.Manager.Laws.{delete_file-deletes}
use so2_final.Transfer.{Host, on_files}
use so2_final.Device.Text.{until_zero, c_string}
use so2_final.Device.Watcher.{client_files, delete_watched, watch_packet}

module _ (C : Channel) (ch : IsChannel C) (F : FileSystem) (L : IsFileSystem F) (W : IsWilling F)
    (username : List ℕ) where
  pub watch_packet-round :
      (n : ℕ) (name : List ℕ) (h : Host C F)
      → until_zero name ≡ name
      → watch_packet F username C n (make_packet (number delete) 1 name) h
        ≡ on_files C F (delete_watched F username name) h
  unfolding watch_packet c_string make_packet
  watch_packet-round n name h whole = rw whole

  pub delete_watched-deletes :
      (name old : List ℕ) (s : F.State)
      → F.read s (path (client_files username) name) ≡ some old
      → (s' : F.State) × (delete_watched F username name s ≡ ok true s')
        × (F.read s' (path (client_files username) name) ≡ none)
        × ((q : FilePath)
            → L.same (path (client_files username) name) q ≡ false
            → F.read s' q ≡ F.read s q)
  unfolding delete_watched is_file_exists
  delete_watched-deletes name old s there =
      let (s', e, gone, others) = delete_file-deletes F L W (client_files username) name s in
      (
        s',
        rw there (>>=-ok (delete_file F (client_files username) name) (λ _. return true) s e),
        gone,
        others,
      )
