-- ===== src/ClientManager.antt =====
-- Server/ClientManager: the devices of one client, the limit on them, the new connections, the
-- passing on of changes to devices and backups, and the loop of a backup.
pub mod Limit
pub mod Push
pub mod Backup
pub mod Connection
pub mod Spread
use so2_final.Base.{
  ℕ, zero, suc, ◌+◌, Bool, true, false, Option, none, some, List, [], ◌∷◌, ◌++◌, length, codes,
  if◌then◌else◌, ◌==◌, M, Result, ok, err, hang, ◌>>=◌, ◌>>◌, return, throw, empty_username,
}
use so2_final.Network.Packet.{Packet, number, write, delete, max_packet_size}
use so2_final.Network.Channel.{Channel}
use so2_final.Files.System.{FileSystem}
use so2_final.Files.Manager.{FileManager, make_file_manager, delete_file}
use so2_final.Transfer.{Host, on_conn, on_files, receive_file, send_file_in_chunks}
use so2_final.Device.Text.{c_string}
use so2_final.Device.Mailbox.{Mailbox, send_push_to}

abbrev pub max_devices : ℕ
max_devices = 2

-- The file manager of the constructor; the other fields start empty.
unfoldable pub make_client_files : (F : FileSystem) → List ℕ → M F.State FileManager
make_client_files F [] = throw empty_username
make_client_files F (b ∷ bs) = make_file_manager F (codes "sync_dir_" ++ (b ∷ bs))

-- A device of the list, by its address, with what other threads see of it.
pub record Member : Type 0 where
  pub address : ℕ
  pub mailbox : Mailbox

-- The first loop of `handle_new_push`; `none`: it waits at the lock of a device.
unfoldable pub push_to_devices : ℕ → ℕ → List ℕ → List Member → Option (List Member)
push_to_devices caller kind content [] = some []
push_to_devices caller kind content (d ∷ ds) =
    let rest = push_to_devices caller kind content ds in
    if d.address == caller
    then (elim rest [ none ↦ none | some ds' ↦ some (d ∷ ds') ])
    else elim (send_push_to kind content d.mailbox) [
      | none ↦ none
      | some m ↦ elim rest [ none ↦ none | some ds' ↦ some (record d { mailbox = m } ∷ ds') ]
    ]

-- `removeDevice` erases the first device of that address.
unfoldable pub remove_device : ℕ → List Member → List Member
remove_device address [] = []
remove_device address (d ∷ ds) = if d.address == address then ds else d ∷ remove_device address ds

module _ (C : Channel) (F : FileSystem) (f : FileManager) where
  -- The second loop of `handle_new_push`, for one backup.
  unfoldable pub push_to_backup : ℕ → List ℕ → M (Host C F) (Unit {0})
  push_to_backup kind content = do
    on_conn C F (C.send kind 0 content)
    if kind == number write then send_file_in_chunks C F f max_packet_size content else return tt

  -- The body of the loop of `receivePushsOn`. The fuel bounds the packets of a file.
  unfoldable pub take_push : ℕ → M (Host C F) (Unit {0})
  take_push fuel = do
    p ← on_conn C F C.receive
    name ← c_string p.payload
    if p.kind == number write
        then receive_file C F f fuel name
        else (if p.kind == number delete then on_files C F (delete_file F f name) else return tt)
