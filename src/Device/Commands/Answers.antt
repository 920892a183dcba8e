-- ===== src/Device/Commands/Answers.antt =====
-- What a device gets for its commands.
use so2_final.Base.{
  ℕ, suc, ◌<◌, ◌≡◌, ◌∙◌, none, some, List, [], ◌∷◌, ◌++◌, length, codes, append_assoc, inr, ok, err,
  invalid_packet, >>=-ok, >>=-err, arith, ◌%◌, ◌^◌, null_payload,
}
use so2_final.Network.Packet.{
  Packet, number, make_packet, max_packet_size, download, list, file_found, file_not_found,
  data_chunk, end_of_file,
}
use so2_final.Network.Channel.{Channel, IsChannel, IsSendable, send_bare, send_text}
use so2_final.Files.System.{FileSystem}
use so2_final.Files.Manager.{FileManager, path, is_file_exists}
use so2_final.Transfer.{Host, on_conn, send_file_in_chunks}
use so2_final.Transfer.Steps.{on_conn-ok, on_conn-err}
use so2_final.Transfer.Sending.{IsChunking, contents, end_packet, send_file_in_chunks-sends}
use so2_final.Device.Text.{c_string, until_zero, first_word}
use so2_final.Device.Commands.{
  answer, answer_download, answer_list, command_round, command_thread, disconnected, terminated,
  listing_or_notice,
}

abbrev pub bare_packet : ℕ → Packet
bare_packet kind = make_packet kind 1 (codes "xxx")

module _ (C : Channel) (ch : IsChannel C) (F : FileSystem) (f : FileManager)
    (list_files : F.State → List ℕ) where
  answer_download-round :
      (p : Packet) (bytes : List ℕ) (h : Host C F)
      → p.kind ≡ number download
      → p.payload ≡ some bytes
      → answer C F f list_files p h
        ≡ answer_download C F f list_files (first_word (until_zero bytes)) h
  unfolding answer c_string
  answer_download-round p bytes h k e = rw (e, k)

  -- On a channel, for a download of a file that can be read, named by the first word of the
  -- payload, `commandThread` sends `t_FILE_FOUND`, data packets numbered from 0 on that hold the
  -- file's bytes in order, and the closing packet, whose number fits 16 bits, and nothing else;
  -- the files stay as they are.
  pub answer_download_found :
      (p : Packet) (asked bytes : List ℕ) (h : Host C F) (ps qs : List Packet)
      → p.kind ≡ number download
      → p.payload ≡ some asked
      → F.read h.files (path f (first_word (until_zero asked))) ≡ some bytes
      → ch.Inbox h.conn ps
      → ch.Outbox h.conn qs
      → (last : ℕ) × (sent : List Packet) × (c : C.Conn) × (answer C F f list_files p h
          ≡ ok tt (record h { conn = c }))
        × (last < 2 ^ 16)
        × IsChunking 0 sent
        × (contents sent ≡ bytes)
        × ch.Inbox c ps
        × ch.Outbox c (qs ++ (bare_packet (number file_found) ∷ (sent ++ (end_packet last ∷ []))))
  unfolding answer_download is_file_exists
  answer_download_found p asked bytes h ps qs k e found i o =
      let name = first_word (until_zero asked) in
      let (c, s, i', o') =
        ch.send-sendable h.conn (number file_found) 1 (codes "xxx") ps qs (omega arith)
          (omega arith) (omega arith) i o in
      let (last, sent, d, s', fits, chunked, whole, i'', o'') =
        send_file_in_chunks-sends C ch F f 2047 name bytes (record h { conn = c }) ps
          (qs ++ (bare_packet (number file_found) ∷ [])) (omega arith) found i' o' in
      (
        last,
        sent,
        d,
        answer_download-round p asked h k e
            ∙ rw found (
                >>=-ok (on_conn C F (send_bare C file_found 1))
                  (λ _. send_file_in_chunks C F f max_packet_size name) h
                  (on_conn-ok C F (send_bare C file_found 1) h s)
                ∙ s'),
        fits,
        chunked,
        whole,
        i'',
        rw append_assoc at o'',
      )

  -- On a channel, for a download of a file that cannot be read, named by the first word of the
  -- payload, `commandThread` sends `t_FILE_NOT_FOUND` alone, and the files stay as they are.
  pub answer_download_missing :
      (p : Packet) (asked : List ℕ) (h : Host C F) (ps qs : List Packet)
      → p.kind ≡ number download
      → p.payload ≡ some asked
      → F.read h.files (path f (first_word (until_zero asked))) ≡ none
      → ch.Inbox h.conn ps
      → ch.Outbox h.conn qs
      → (c : C.Conn) × (answer C F f list_files p h ≡ ok tt (record h { conn = c }))
        × ch.Inbox c ps
        × ch.Outbox c (qs ++ (bare_packet (number file_not_found) ∷ []))
  unfolding answer_download is_file_exists
  answer_download_missing p asked h ps qs k e missing i o =
      let (c, s, i', o') =
        ch.send-sendable h.conn (number file_not_found) 1 (codes "xxx") ps qs (omega arith)
          (omega arith) (omega arith) i o in
      (
        c,
        answer_download-round p asked h k e
            ∙ rw missing (on_conn-ok C F (send_bare C file_not_found 1) h s),
        i',
        o',
      )

  answer_list-round :
      (p : Packet) (bytes : List ℕ) (h : Host C F)
      → p.kind ≡ number list
      → p.payload ≡ some bytes
      → answer C F f list_files p h ≡ answer_list C F f list_files h
  unfolding answer c_string
  answer_list-round p bytes h k e = rw (e, k)

  -- A listing that fits in one packet goes out in one, and the closing packet behind it.
  pub answer_list-sends :
      (p : Packet) (asked : List ℕ) (h : Host C F) (ps qs : List Packet)
      → p.kind ≡ number list
      → p.payload ≡ some asked
      → IsSendable (listing_or_notice (list_files h.files))
      → ch.Inbox h.conn ps
      → ch.Outbox h.conn qs
      → let text = listing_or_notice (list_files h.files) in
        (c : C.Conn) × (answer C F f list_files p h ≡ ok tt (record h { conn = c }))
        × ch.Inbox c ps
        × ch.Outbox c
            (qs ++ (make_packet (number data_chunk) 1 text ∷ bare_packet (number end_of_file) ∷ []))
  unfolding answer_list
  answer_list-sends p asked h ps qs k e fits i o =
      let text = listing_or_notice (list_files h.files) in
      let (c, s, i', o') =
        ch.send-sendable h.conn (number data_chunk) 1 text ps qs (omega arith) (omega arith) fits i
          o in
      let (d, s', i'', o'') =
        ch.send-sendable c (number end_of_file) 1 (codes "xxx") ps
          (qs ++ (make_packet (number data_chunk) 1 text ∷ [])) (omega arith) (omega arith)
          (omega arith) i' o' in
      (
        d,
        answer_list-round p asked h k e
            ∙ >>=-ok (on_conn C F (send_text C data_chunk 1 text)) _ h
                (on_conn-ok C F (send_text C data_chunk 1 text) h s)
            ∙ on_conn-ok C F (send_bare C end_of_file 1) (record h { conn = c }) s',
        i'',
        rw append_assoc at o'',
      )

  -- If the next packet is `t_LIST` with a payload and the listing, modulo 65536, has more than
  -- 2048 bytes, then `commandThread` ends as for a device that has disconnected, and nothing has
  -- been sent.
  pub command_thread_long_listing :
      (n : ℕ) (p : Packet) (asked : List ℕ) (h : Host C F) (ps qs : List Packet)
      → p.kind ≡ number list
      → p.payload ≡ some asked
      → max_packet_size < length (listing_or_notice (list_files h.files)) % 2 ^ 16
      → ch.Inbox h.conn (p ∷ ps)
      → ch.Outbox h.conn qs
      → (h' : Host C F) × (command_thread C F f list_files (suc n) h
          ≡ disconnected invalid_packet h')
        × ch.Outbox h'.conn qs
  unfolding command_thread answer_list c_string
  command_thread_long_listing n p asked h ps qs k e long i o =
      let (c, r, i', o') = ch.receive-next h.conn p ps qs i o in
      let refused =
        ch.send-unsendable c (number data_chunk) 1 (listing_or_notice (list_files h.files)) ps
          (inr long) i' in
      let listed : answer C F f list_files p (record h { conn = c })
          ≡ err invalid_packet (record h { conn = c }) =
        rw (e, k)
          (>>=-err (on_conn C F (send_text C data_chunk 1 (listing_or_notice (list_files h.files))))
            _ (record h { conn = c })
            (on_conn-err C F (send_text C data_chunk 1 (listing_or_notice (list_files h.files)))
              (record h { conn = c }) refused)) in
      let round : command_round C F f list_files h ≡ err invalid_packet (record h { conn = c }) =
        >>=-ok (on_conn C F C.receive) (answer C F f list_files) h (on_conn-ok C F C.receive h r)
        ∙ listed in
      (record h { conn = c }, rw (round, command_thread), o')

  -- A packet with an empty payload ends the whole process.
  pub command_thread_null :
      (n : ℕ) (p : Packet) (h : Host C F) (ps qs : List Packet)
      → p.payload ≡ none
      → ch.Inbox h.conn (p ∷ ps)
      → ch.Outbox h.conn qs
      → command_thread C F f list_files (suc n) h ≡ terminated
  unfolding command_thread c_string
  command_thread_null n p h ps qs e i o =
      let (c, r, i', o') = ch.receive-next h.conn p ps qs i o in
      let thrown : answer C F f list_files p (record h { conn = c })
          ≡ err null_payload (record h { conn = c }) =
        rw e in
      let round : command_round C F f list_files h ≡ err null_payload (record h { conn = c }) =
        >>=-ok (on_conn C F C.receive) (answer C F f list_files) h (on_conn-ok C F C.receive h r)
        ∙ thrown in
      rw (round, command_thread)
