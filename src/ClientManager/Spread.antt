-- ===== src/ClientManager/Spread.antt =====
-- `handle_new_push` as a whole, and the loop of `receivePushsOn`.
pub mod Replica
pub mod Reach
pub mod Notices
use so2_final.Base.{
  endless, ℕ, zero, suc, none, some, List, [], ◌∷◌, ◌++◌, M, null_payload, ok, err, hang, ◌>>=◌,
  ◌>>◌, return,
}
use so2_final.Network.Packet.{Packet}
use so2_final.Network.Channel.{Channel}
use so2_final.Files.System.{FileSystem}
use so2_final.Files.Manager.{FileManager}
use so2_final.Transfer.{Host}
use so2_final.Device.Text.{c_string}
use so2_final.Device.Commands.{Ending, disconnected, terminated, unfinished}
use so2_final.ClientManager.{Member, push_to_devices, push_to_backup, take_push}

-- The files, the devices, and the backups, of which `told` are those that the loop has been
-- through.
pub record Herd (C : Channel) (F : FileSystem) : Type 0 where
  pub files : F.State
  pub devices : List Member
  pub backups : List C.Conn
  pub told : List C.Conn

module _ (C : Channel) (F : FileSystem) (f : FileManager) where
  -- The body of the second loop.
  tell_backup : ℕ → List ℕ → C.Conn → M (Herd C F) (Unit {0})
  tell_backup kind content c s =
      elim (push_to_backup C F f kind content (record { conn = c; files = s.files })) [
        | ok u h ↦ ok tt (record s { files = h.files; told = s.told ++ (h.conn ∷ []) })
        | err x h ↦ err x (record s { files = h.files; told = s.told ++ (h.conn ∷ []) })
        | hang w ↦ hang w
      ]

  unfoldable pub tell_backups : ℕ → List ℕ → List C.Conn → M (Herd C F) (Unit {0})
  unfolding tell_backup
  tell_backups kind content [] = return tt
  tell_backups kind content (c ∷ cs) = do tell_backup kind content c; tell_backups kind content cs

  -- The first loop; it may wait for a device for ever.
  pub tell_devices : ℕ → ℕ → List ℕ → M (Herd C F) (Unit {0})
  tell_devices caller kind content s = elim (push_to_devices caller kind content s.devices) [
    | none ↦ hang endless
    | some ds ↦ ok tt (record s { devices = ds })
  ]

  unfoldable pub handle_new_push : Packet → ℕ → M (Herd C F) (Unit {0})
  unfolding tell_devices tell_backups
  handle_new_push p caller = do
    content ← c_string p.payload
    tell_devices caller p.kind content
    λ s. tell_backups p.kind content s.backups s

  -- The loop of a backup. The first fuel bounds the rounds, the second the packets of a file.
  unfoldable pub receive_pushes : ℕ → ℕ → Host C F → Ending (Host C F)
  receive_pushes zero packets h = unfinished endless
  receive_pushes (suc fuel) packets h = elim (take_push C F f packets h) [
    | ok u h' ↦ receive_pushes fuel packets h'
    | err null_payload h' ↦ terminated
    | err e h' ↦ disconnected e h'
    | hang w ↦ unfinished w
  ]
