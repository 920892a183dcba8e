-- ===== src/Transfer/Receiving.antt =====
-- What the receiving loops make of the packets of a file.
use so2_final.Base.{
  ℕ, suc, ◌≡◌, refl, ap, ◌∙◌, Bool, true, false, some, List, [], ◌∷◌, ◌++◌, All, All-append,
  append_assoc, append-nil, Error, ok, err, >>=-ok, >>=-err, ◌==◌, text_eq,
}
use so2_final.Network.Packet.{Packet, number, data_chunk, end_of_file, write, make_packet}
use so2_final.Network.Wire.{payload_bytes}
use so2_final.Network.Channel.{Channel, IsChannel, Closes}
use so2_final.Files.System.{FileSystem, FilePath, IsFileSystem, IsWilling}
use so2_final.Files.Manager.{FileManager, path, write_file}
use so2_final.Files.Manager.Laws.{write_file-appends}
use so2_final.Transfer.{
  Host, on_conn, on_files, next_seqn, receive_until, receive_file, build_file, receive_push,
  ends_file, says_end,
}
use so2_final.Transfer.Steps.{on_conn-ok, on_conn-err, on_files-ok}
use so2_final.Transfer.Sending.{contents, IsChunking, end_packet}

-- Rounds for some packets, and as many again as are given.
abbrev pub more : List Packet → ℕ → ℕ
more [] n = n
more (p ∷ ps) n = suc (more ps n)

data_packet-goes_on :
    (seqn : ℕ) (bytes : List ℕ) → ends_file (make_packet (number data_chunk) seqn bytes) ≡ false
unfolding make_packet
data_packet-goes_on seqn bytes = refl

end_packet-ends_file : (last : ℕ) → ends_file (end_packet last) ≡ true
unfolding make_packet
end_packet-ends_file last = refl

end_packet-says_end : (last : ℕ) → says_end (end_packet last) ≡ false
unfolding make_packet text_eq
end_packet-says_end last = refl

IsChunking-goes_on :
    (seqn : ℕ) (ps : List Packet) → IsChunking seqn ps → All (λ p. ends_file p ≡ false) ps
IsChunking-goes_on seqn [] k = tt
IsChunking-goes_on seqn (p ∷ ps) k = (
  ap ends_file k.0 ∙ data_packet-goes_on seqn (payload_bytes p.payload),
  IsChunking-goes_on (next_seqn seqn) ps k.2,
)

All-const : (b : Bool) (ps : List Packet) → b ≡ false → All (λ p. b ≡ false) ps
All-const b [] h = tt
All-const b (p ∷ ps) h = (h, All-const b ps h)

module _ (C : Channel) (ch : IsChannel C) (F : FileSystem) (L : IsFileSystem F) (W : IsWilling F)
    (f : FileManager) where
  -- The state between two rounds: what is left to read, what was sent, and what the file holds;
  -- the other files are those of `s`.
  pub record Receiving (name : List ℕ) (s : F.State) (h : Host C F) (ps qs : List Packet)
      (held : List ℕ) : Type 0 where
    pub inbox : ch.Inbox h.conn ps
    pub outbox : ch.Outbox h.conn qs
    pub file : F.read h.files (path f name) ≡ some held
    pub others : (q : FilePath) → L.same (path f name) q ≡ false → F.read h.files q ≡ F.read s q

  module _ (stop : Packet → Bool) (name : List ℕ) (s : F.State) where
    receive_until-round :
        (n : ℕ) (h : Host C F) (p : Packet) (ps qs : List Packet) (held : List ℕ)
        → stop p ≡ false
        → Receiving name s h (p ∷ ps) qs held
        → (h' : Host C F) × (receive_until C F f stop (suc n) name h
            ≡ receive_until C F f stop n name h')
          × Receiving name s h' ps qs (held ++ payload_bytes p.payload)
    unfolding receive_until
    receive_until-round n h p ps qs held go r =
        let (c, e, i, o) = ch.receive-next h.conn p ps qs r.inbox r.outbox in
        let (t, e', now, rest) =
          write_file-appends F L W f name (payload_bytes p.payload) held h.files r.file in
        (
          record { conn = c; files = t },
          >>=-ok (on_conn C F C.receive) _ h (on_conn-ok C F C.receive h e)
              ∙ rw go (
                  >>=-ok (on_files C F (write_file F f name (payload_bytes p.payload)))
                    (λ _. receive_until C F f stop n name) (record h { conn = c })
                    (on_files-ok C F (write_file F f name (payload_bytes p.payload))
                      (record h { conn = c }) e')),
          record { inbox = i; outbox = o; file = now; others = λ q d. rest q d ∙ r.others q d },
        )

    receive_until-rounds :
        (n : ℕ) (h : Host C F) (ps rest qs : List Packet) (held : List ℕ)
        → All (λ p. stop p ≡ false) ps
        → Receiving name s h (ps ++ rest) qs held
        → (h' : Host C F) × (receive_until C F f stop (more ps n) name h
            ≡ receive_until C F f stop n name h')
          × Receiving name s h' rest qs (held ++ contents ps)
    receive_until-rounds n h [] rest qs held all r = (h, refl, rw append-nil r)
    receive_until-rounds n h (p ∷ ps) rest qs held all r =
        let (h', e, r') = receive_until-round (more ps n) h p (ps ++ rest) qs held all.0 r in
        let (h'', e', r'') =
          receive_until-rounds n h' ps rest qs (held ++ payload_bytes p.payload) all.1 r' in
        (h'', e ∙ e', rw append_assoc at r'')

    receive_until-stops :
        (n : ℕ) (h : Host C F) (p : Packet) (ps qs : List Packet) (held : List ℕ)
        → stop p ≡ true
        → Receiving name s h (p ∷ ps) qs held
        → (h' : Host C F) × (receive_until C F f stop (suc n) name h ≡ ok tt h')
          × Receiving name s h' ps qs held
    unfolding receive_until
    receive_until-stops n h p ps qs held done r =
        let (c, e, i, o) = ch.receive-next h.conn p ps qs r.inbox r.outbox in
        (
          record h { conn = c },
          >>=-ok (on_conn C F C.receive) _ h (on_conn-ok C F C.receive h e) ∙ rw done,
          record { inbox = i; outbox = o; file = r.file; others = r.others },
        )

    receive_until-throws :
        (closes : Closes C ch) (n : ℕ) (h : Host C F) (qs : List Packet) (held : List ℕ)
        → Receiving name s h [] qs held
        → (e : Error) × (h' : Host C F) × (receive_until C F f stop (suc n) name h ≡ err e h')
          × Receiving name s h' [] qs held
    unfolding receive_until
    receive_until-throws closes n h qs held r =
        let (x, c, e, i, o) = closes h.conn qs r.inbox r.outbox in
        (
          x,
          record h { conn = c },
          >>=-err (on_conn C F C.receive) _ h (on_conn-err C F C.receive h e),
          record { inbox = i; outbox = o; file = r.file; others = r.others },
        )

  -- Where numbered data packets that carry some bytes and then a closing packet are to be read,
  -- and the file system is lawful and willing, the receiving loop for a file that is there ends at
  -- the closing packet; the file has grown by exactly those bytes, no other file has changed,
  -- nothing has been sent, and the packets behind the closing one are still to be read.
  pub receive_file-receives :
      (n last seqn : ℕ) (name bytes : List ℕ) (h : Host C F) (sent rest qs : List Packet)
      (held : List ℕ)
      → IsChunking seqn sent
      → contents sent ≡ bytes
      → Receiving name h.files h (sent ++ (end_packet last ∷ rest)) qs held
      → (h' : Host C F) × (receive_file C F f (more sent (suc n)) name h ≡ ok tt h')
        × Receiving name h.files h' rest qs (held ++ bytes)
  unfolding receive_file
  receive_file-receives n last seqn name bytes h sent rest qs held k t r =
      let (h', e, r') =
        receive_until-rounds ends_file name h.files (suc n) h sent (end_packet last ∷ rest) qs held
          (IsChunking-goes_on seqn sent k) r in
      let (h'', e', r'') =
        receive_until-stops ends_file name h.files n h' (end_packet last) rest qs
          (held ++ contents sent) (end_packet-ends_file last) r' in
      (h'', e ∙ e', rw t at r'')

  -- A loop whose test no packet passes never returns: it appends every payload that comes, the
  -- closing packet's text and later packets included, until the connection fails.
  receive_until-runs_on :
      (closes : Closes C ch) (stop : Packet → Bool) (n : ℕ) (name : List ℕ) (h : Host C F)
      (ps qs : List Packet) (held : List ℕ)
      → All (λ p. stop p ≡ false) ps
      → Receiving name h.files h ps qs held
      → (e : Error) × (h' : Host C F) × (receive_until C F f stop (more ps (suc n)) name h
          ≡ err e h')
        × Receiving name h.files h' [] qs (held ++ contents ps)
  receive_until-runs_on closes stop n name h ps qs held all r =
      let (h', e, r') =
        receive_until-rounds stop name h.files (suc n) h ps [] qs held all (rw append-nil r) in
      let (x, h'', e', r'') =
        receive_until-throws stop name h.files closes n h' qs (held ++ contents ps) r' in
      (x, h'', e ∙ e', r'')

  -- If what is to be read ends as `sendFileInChunks` ends it, no chunk and no later packet has the
  -- text "END_OF_FILE", and the peer closes behind the last packet, then on a lawful and willing
  -- file system `buildFile` for a file that is there does not end at the closing packet: it
  -- appends the payloads of all the packets and ends by an exception.
  pub build_file-runs_on :
      (closes : Closes C ch) (n last : ℕ) (name : List ℕ) (h : Host C F)
      (sent rest qs : List Packet) (held : List ℕ)
      → All (λ p. says_end p ≡ false) sent
      → All (λ p. says_end p ≡ false) rest
      → Receiving name h.files h (sent ++ (end_packet last ∷ rest)) qs held
      → (e : Error) × (h' : Host C F) × (build_file C F f
            (more (sent ++ (end_packet last ∷ rest)) (suc n))
            name
            h
          ≡ err e h')
        × Receiving name h.files h' [] qs (held ++ contents (sent ++ (end_packet last ∷ rest)))
  unfolding build_file
  build_file-runs_on closes n last name h sent rest qs held a b r =
      receive_until-runs_on closes says_end n name h (sent ++ (end_packet last ∷ rest)) qs held
        (All-append (λ p. says_end p ≡ false) sent (end_packet last ∷ rest) a
          (end_packet-says_end last, b))
        r

  -- On a lawful and willing file system, the receiving loop of `handlePushThread`, entered after a
  -- packet of type `t_WRITE` for a file that is there, ends at none of the packets: it appends the
  -- payloads of all of them, and ends by an exception once the peer has closed.
  pub receive_push-runs_on :
      (closes : Closes C ch) (n : ℕ) (announced : Packet) (name : List ℕ) (h : Host C F)
      (ps qs : List Packet) (held : List ℕ)
      → announced.kind ≡ number write
      → Receiving name h.files h ps qs held
      → (e : Error) × (h' : Host C F) × (receive_push C F f announced (more ps (suc n)) name h
          ≡ err e h')
        × Receiving name h.files h' [] qs (held ++ contents ps)
  unfolding receive_push
  receive_push-runs_on closes n announced name h ps qs held w r =
      receive_until-runs_on closes (λ p. announced.kind == number end_of_file) n name h ps qs held
        (All-const (announced.kind == number end_of_file) ps (rw w)) r

  -- `buildFile` on packets of which the last alone carries the text "END_OF_FILE".
  pub build_file-stops :
      (n : ℕ) (name : List ℕ) (h : Host C F) (sent rest qs : List Packet) (last : Packet)
      (held : List ℕ)
      → All (λ p. says_end p ≡ false) sent
      → says_end last ≡ true
      → Receiving name h.files h (sent ++ (last ∷ rest)) qs held
      → (h' : Host C F) × (build_file C F f (more sent (suc n)) name h ≡ ok tt h')
        × Receiving name h.files h' rest qs (held ++ contents sent)
  unfolding build_file
  build_file-stops n name h sent rest qs last held a b r =
      let (h', e, r') =
        receive_until-rounds says_end name h.files (suc n) h sent (last ∷ rest) qs held a r in
      let (h'', e', r'') =
        receive_until-stops says_end name h.files n h' last rest qs (held ++ contents sent) b r' in
      (h'', e ∙ e', r'')
