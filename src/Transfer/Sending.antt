-- ===== src/Transfer/Sending.antt =====
-- What `sendFileInChunks` sends.
use so2_final.Base.{
  ℕ, zero, suc, ◌^◌, ◌≤◌, ◌<◌, ◌≡◌, refl, ap, ◌∙◌, none, some, List, [], ◌∷◌, ◌++◌, length, take,
  drop, codes, length-take, length-drop, take-append-drop, append_assoc, append-nil, ok, err,
  >>=-ok, >>=-err, open_failed, arith,
}
use so2_final.Network.Packet.{Packet, number, data_chunk, end_of_file, make_packet, max_packet_size}
use so2_final.Network.Wire.{payload_bytes}
use so2_final.Network.Channel.{Channel, IsChannel, IsSendable, send_text, send_bare}
use so2_final.Files.System.{FileSystem}
use so2_final.Files.Manager.{FileManager, path, read_file}
use so2_final.Transfer.{
  Host, on_conn, on_files, next_seqn, chunk_loop, send_chunks, send_file_in_chunks,
}
use so2_final.Transfer.Steps.{on_conn-ok, on_files-ok, on_files-err, attempt-ok, attempt-err}

-- The payloads in a row.
abbrev pub contents : List Packet → List ℕ
contents [] = []
contents (p ∷ ps) = payload_bytes p.payload ++ contents ps

-- Data packets with payloads that fit, numbered from `seqn` on.
abbrev pub IsChunking : ℕ → List Packet → Type 0
IsChunking seqn [] = Unit {0}
IsChunking seqn (p ∷ ps) =
    (p ≡ make_packet (number data_chunk) seqn (payload_bytes p.payload))
    × IsSendable (payload_bytes p.payload)
    × IsChunking (next_seqn seqn) ps

-- The packet behind the last chunk; it carries the text "xxx".
abbrev pub end_packet : ℕ → Packet
end_packet seqn = make_packet (number end_of_file) seqn (codes "xxx")

module _ (C : Channel) (ch : IsChannel C) (F : FileSystem) where
  chunk_loop-sends :
      (fuel n seqn : ℕ) (bytes : List ℕ) (h : Host C F) (ps qs : List Packet)
      → length bytes ≤ fuel
      → suc n ≤ max_packet_size
      → seqn < 2 ^ 16
      → ch.Inbox h.conn ps
      → ch.Outbox h.conn qs
      → (last : ℕ) × (sent : List Packet) × (c : C.Conn) × (chunk_loop C F fuel (suc n) seqn bytes h
          ≡ ok last (record h { conn = c }))
        × (last < 2 ^ 16)
        × IsChunking seqn sent
        × (contents sent ≡ bytes)
        × ch.Inbox c ps
        × ch.Outbox c (qs ++ sent)
  unfolding chunk_loop make_packet
  chunk_loop-sends fuel n seqn [] h ps qs hf hn hs i o =
      (seqn, [], h.conn, refl, hs, tt, refl, i, rw append-nil o)
  chunk_loop-sends zero n seqn (b ∷ bs) h ps qs hf hn hs i o = absurd (omega arith)
  chunk_loop-sends (suc fuel) n seqn (b ∷ bs) h ps qs hf hn hs i o =
      let chunk : List ℕ = b ∷ take n bs in
      let p = make_packet (number data_chunk) seqn chunk in
      let fits : IsSendable chunk = omega (arith, length-take n bs) in
      let (c, e, i', o') =
        ch.send-sendable h.conn (number data_chunk) seqn chunk ps qs (omega arith) hs fits i o in
      let (last, sent, d, e', hl, k, t, i'', o'') =
        chunk_loop-sends fuel n (next_seqn seqn) (drop n bs) (record h { conn = c }) ps
          (qs ++ (p ∷ [])) (omega (arith, length-drop n bs)) hn (omega arith) i' o' in
      (
        last,
        p ∷ sent,
        d,
        >>=-ok (on_conn C F (send_text C data_chunk seqn chunk))
              (λ _. chunk_loop C F fuel (suc n) (next_seqn seqn) (drop n bs)) h
              (on_conn-ok C F (send_text C data_chunk seqn chunk) h e)
            ∙ e',
        hl,
        (refl, fits, k),
        ap (◌++◌ chunk) t ∙ ap (◌∷◌ b) (take-append-drop n bs),
        i'',
        rw append_assoc at o'',
      )

  module _ (f : FileManager) where
    -- On a channel, for every buffer size from 1 to 2048, `sendFileInChunks` of a file that can be
    -- read returns, with the files as they were, after it has sent data packets numbered from 0
    -- on, whose payloads fit and hold the file's bytes in order, and one closing packet, whose
    -- number fits 16 bits.
    pub send_file_in_chunks-sends :
        (n : ℕ) (name bytes : List ℕ) (h : Host C F) (ps qs : List Packet)
        → suc n ≤ max_packet_size
        → F.read h.files (path f name) ≡ some bytes
        → ch.Inbox h.conn ps
        → ch.Outbox h.conn qs
        → (last : ℕ) × (sent : List Packet) × (c : C.Conn) × (send_file_in_chunks C F f
              (suc n)
              name
              h
            ≡ ok tt (record h { conn = c }))
          × (last < 2 ^ 16)
          × IsChunking 0 sent
          × (contents sent ≡ bytes)
          × ch.Inbox c ps
          × ch.Outbox c (qs ++ (sent ++ (end_packet last ∷ [])))
    unfolding send_file_in_chunks read_file
    send_file_in_chunks-sends n name bytes h ps qs hn found i o =
        let (last, sent, c, e, hl, k, t, i', o') =
          chunk_loop-sends (length bytes) n 0 bytes h ps qs (omega arith) hn (omega arith) i o in
        let (d, e', i'', o'') =
          ch.send-sendable c (number end_of_file) last (codes "xxx") ps (qs ++ sent) (omega arith)
            hl (omega arith) i' o' in
        let opened : read_file F f name h.files ≡ ok bytes h.files = rw found in
        (
          last,
          sent,
          d,
          attempt-ok (send_chunks C F f (suc n) name) h (
              >>=-ok (on_files C F (read_file F f name)) _ h
                (on_files-ok C F (read_file F f name) h opened)
              ∙ >>=-ok (chunk_loop C F (length bytes) (suc n) 0 bytes) _ h e
              ∙ on_conn-ok C F (send_bare C end_of_file last) (record h { conn = c }) e'),
          hl,
          k,
          t,
          i'',
          rw append_assoc at o'',
        )

    -- A file that cannot be opened: the exception is caught, and nothing is sent, not even the
    -- closing packet.
    pub send_file_in_chunks-missing :
        (n : ℕ) (name : List ℕ) (h : Host C F)
        → F.read h.files (path f name) ≡ none
        → send_file_in_chunks C F f n name h ≡ ok tt h
    unfolding send_file_in_chunks read_file
    send_file_in_chunks-missing n name h missing =
        let failed : read_file F f name h.files ≡ err open_failed h.files = rw missing in
        attempt-err (send_chunks C F f n name) h (
          >>=-err (on_files C F (read_file F f name)) _ h
            (on_files-err C F (read_file F f name) h failed))
