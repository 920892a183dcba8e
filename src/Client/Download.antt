-- ===== src/Client/Download.antt =====
-- A download against what the server's command thread answers.
use so2_final.Base.{
  ℕ, suc, ◌≡◌, refl, ◌∙◌, true, false, some, List, [], ◌∷◌, ◌++◌, ok, >>=-ok, return, arith,
}
use so2_final.Network.Packet.{Packet, number, make_packet, download, file_found, file_not_found}
use so2_final.Network.Channel.{Channel, IsChannel, IsSendable, send_text}
use so2_final.Files.System.{FileSystem, FilePath, IsFileSystem, IsWilling}
use so2_final.Files.Manager.{FileManager, path, create_file}
use so2_final.Files.Manager.Laws.{create_file-creates}
use so2_final.Transfer.{Host, on_conn, on_files, receive_file}
use so2_final.Transfer.Steps.{on_conn-ok, on_files-ok}
use so2_final.Transfer.Sending.{IsChunking, contents, end_packet}
use so2_final.Transfer.Receiving.{more, receive_file-receives}
use so2_final.Device.Commands.Answers.{bare_packet}
use so2_final.Client.{download_file, store_download}

module _ (C : Channel) (ch : IsChannel C) (F : FileSystem) (L : IsFileSystem F) (W : IsWilling F)
    (dir : FileManager) where
  -- If a name of 1 to 2048 bytes is asked for, and the answer that is to be read is
  -- `t_FILE_FOUND`, numbered data packets that carry some bytes, and the closing packet, then on a
  -- lawful and willing file system the `download` command ends with exactly those bytes in the
  -- client's file, whatever it held before; no other file has changed, only the request has been
  -- sent, and the packets behind the answer are still to be read.
  pub download_file_found :
      (n last : ℕ) (name bytes : List ℕ) (h : Host C F) (sent rest qs : List Packet)
      → IsSendable name
      → IsChunking 0 sent
      → contents sent ≡ bytes
      → ch.Inbox h.conn (bare_packet (number file_found) ∷ (sent ++ (end_packet last ∷ rest)))
      → ch.Outbox h.conn qs
      → (h' : Host C F) × (download_file C F dir (more sent (suc n)) name h ≡ ok true h')
        × ch.Inbox h'.conn rest
        × ch.Outbox h'.conn (qs ++ (make_packet (number download) 1 name ∷ []))
        × (F.read h'.files (path dir name) ≡ some bytes)
        × ((q : FilePath) → L.same (path dir name) q ≡ false → F.read h'.files q ≡ F.read h.files q)
  unfolding download_file store_download make_packet
  download_file_found n last name bytes h sent rest qs fits k t i o =
      let fuel = more sent (suc n) in
      let (c, s, i', o') =
        ch.send-sendable h.conn (number download) 1 name
          (bare_packet (number file_found) ∷ (sent ++ (end_packet last ∷ rest))) qs (omega arith)
          (omega arith) fits i o in
      let (d, r, i'', o'') =
        ch.receive-next c (bare_packet (number file_found)) (sent ++ (end_packet last ∷ rest))
          (qs ++ (make_packet (number download) 1 name ∷ [])) i' o' in
      let (fs, e, empty, kept) = create_file-creates F L W dir name h.files in
      let (h', e', r') =
        receive_file-receives C ch F L W dir n last 0 name bytes (record { conn = d; files = fs })
          sent rest (qs ++ (make_packet (number download) 1 name ∷ [])) [] k t
          (record { inbox = i''; outbox = o''; file = empty; others = λ q z. refl }) in
      (
        h',
        >>=-ok (on_conn C F (send_text C download 1 name)) _ h
              (on_conn-ok C F (send_text C download 1 name) h s)
            ∙ >>=-ok (on_conn C F C.receive) _ (record h { conn = c })
                (on_conn-ok C F C.receive (record h { conn = c }) r)
            ∙ >>=-ok (on_files C F (create_file F dir name)) _ (record h { conn = d })
                (on_files-ok C F (create_file F dir name) (record h { conn = d }) e)
            ∙ >>=-ok (receive_file C F dir fuel name) (λ _. return true)
                (record { conn = d; files = fs }) e',
        r'.inbox,
        r'.outbox,
        r'.file,
        λ q z. r'.others q z ∙ kept q z,
      )

  -- If a name of 1 to 2048 bytes is asked for and the answer that is to be read is
  -- `t_FILE_NOT_FOUND`, then the `download` command ends with no file changed and the later
  -- packets still to be read.
  pub download_file_missing :
      (fuel : ℕ) (name : List ℕ) (h : Host C F) (rest qs : List Packet)
      → IsSendable name
      → ch.Inbox h.conn (bare_packet (number file_not_found) ∷ rest)
      → ch.Outbox h.conn qs
      → (h' : Host C F) × (download_file C F dir fuel name h ≡ ok false h')
        × ch.Inbox h'.conn rest
        × (h'.files ≡ h.files)
  unfolding download_file make_packet
  download_file_missing fuel name h rest qs fits i o =
      let (c, s, i', o') =
        ch.send-sendable h.conn (number download) 1 name
          (bare_packet (number file_not_found) ∷ rest) qs (omega arith) (omega arith) fits i o in
      let (d, r, i'', o'') =
        ch.receive-next c (bare_packet (number file_not_found)) rest
          (qs ++ (make_packet (number download) 1 name ∷ [])) i' o' in
      (
        record h { conn = d },
        >>=-ok (on_conn C F (send_text C download 1 name)) _ h
              (on_conn-ok C F (send_text C download 1 name) h s)
            ∙ >>=-ok (on_conn C F C.receive) _ (record h { conn = c })
                (on_conn-ok C F C.receive (record h { conn = c }) r),
        i'',
        refl,
      )
