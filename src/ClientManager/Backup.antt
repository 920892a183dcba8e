-- ===== src/ClientManager/Backup.antt =====
-- What a backup does with a change that the leader passes on.
use so2_final.Base.{ℕ, suc, ◌≡◌, refl, ◌∙◌, false, some, List, ◌∷◌, ◌++◌, ok, >>=-ok}
use so2_final.Network.Packet.{Packet, number, write}
use so2_final.Network.Channel.{Channel, IsChannel}
use so2_final.Files.System.{FileSystem, FilePath, IsFileSystem, IsWilling}
use so2_final.Files.Manager.{FileManager, path}
use so2_final.Transfer.{Host, on_conn}
use so2_final.Transfer.Steps.{on_conn-ok}
use so2_final.Transfer.Sending.{IsChunking, contents, end_packet}
use so2_final.Transfer.Receiving.{more, receive_file-receives}
use so2_final.Device.Text.{c_string, until_zero}
use so2_final.ClientManager.{take_push}

module _ (C : Channel) (ch : IsChannel C) (F : FileSystem) (L : IsFileSystem F) (W : IsWilling F)
    (f : FileManager) where
  -- On a lawful and willing file system, a backup that is told of a write to a file that it holds,
  -- and gets the new bytes in numbered packets and a closing one, appends them to the bytes that
  -- it holds; no other file changes, and the later packets are still to be read.
  pub take_push-appends :
      (n last : ℕ) (p : Packet) (text bytes held : List ℕ) (h : Host C F)
      (sent rest qs : List Packet)
      → p.kind ≡ number write
      → p.payload ≡ some text
      → F.read h.files (path f (until_zero text)) ≡ some held
      → IsChunking 0 sent
      → contents sent ≡ bytes
      → ch.Inbox h.conn (p ∷ (sent ++ (end_packet last ∷ rest)))
      → ch.Outbox h.conn qs
      → (h' : Host C F) × (take_push C F f (more sent (suc n)) h ≡ ok tt h')
        × ch.Inbox h'.conn rest
        × (F.read h'.files (path f (until_zero text)) ≡ some (held ++ bytes))
        × ((q : FilePath)
            → L.same (path f (until_zero text)) q ≡ false
            → F.read h'.files q ≡ F.read h.files q)
  unfolding take_push c_string
  take_push-appends n last p text bytes held h sent rest qs w e found k t i o =
      let name = until_zero text in
      let (c, r, i', o') = ch.receive-next h.conn p (sent ++ (end_packet last ∷ rest)) qs i o in
      let (h', e', r') =
        receive_file-receives C ch F L W f n last 0 name bytes (record h { conn = c }) sent rest qs
          held k t (record { inbox = i'; outbox = o'; file = found; others = λ q z. refl }) in
      (
        h',
        >>=-ok (on_conn C F C.receive) _ h (on_conn-ok C F C.receive h r) ∙ rw (e, w) e',
        r'.inbox,
        r'.file,
        r'.others,
      )
