-- ===== src/Client/Shell/Listing.antt =====
-- The listing that `list_server` prints, and the server's answer to it.
use so2_final.Base.{
  ℕ, suc, ◌≡◌, refl, ap, ◌∙◌, some, true, false, List, [], ◌∷◌, ◌++◌, codes, ok, All, M, ◌>>◌,
  append_assoc, append-nil, >>=-ok, arith,
}
use so2_final.Network.Packet.{Packet, number, make_packet, data_chunk, end_of_file, list}
use so2_final.Network.Wire.{payload_bytes}
use so2_final.Network.Manager.{Platform, IsPlatform, Manager, connected}
use so2_final.Network.Channel.{Channel, IsChannel, IsSendable, send_bare}
use so2_final.Network.Channel.Socket.{
  Carries, make_packet-Carries, socket_channel, socket_channel-IsChannel,
}
use so2_final.Files.System.{FileSystem}
use so2_final.Files.Manager.{FileManager}
use so2_final.Transfer.{Host, on_conn, ends_file}
use so2_final.Transfer.Steps.{on_conn-ok}
use so2_final.Transfer.Receiving.{more}
use so2_final.Device.Commands.{answer, listing_or_notice}
use so2_final.Device.Commands.Answers.{bare_packet, answer_list-sends}
use so2_final.Client.Session.{delivered}
use so2_final.Client.Shell.{Shell, Copier, on_host, print_payload, print_listing, list_remote}

-- The lines that the payloads print.
abbrev pub payload_line : List ℕ → List (List ℕ)
payload_line [] = []
payload_line (b ∷ bs) = ((b ∷ bs) ++ codes "\n") ∷ []

abbrev pub lines : List Packet → List (List ℕ)
lines [] = []
lines (p ∷ ps) = payload_line (payload_bytes p.payload) ++ lines ps

module _ (C : Channel) (ch : IsChannel C) (F : FileSystem) (K : Copier F) where
  on_host-ok {ℓ} :
      {A : Type ℓ} (call : M (Host C F) A) (s : Shell C F) {a : A} {h : Host C F}
      → call s.host ≡ ok a h
      → on_host C F K call s ≡ ok a (record s { host = h })
  on_host-ok call s e = rw (e, on_host)

  -- The printing of a payload, inside a sequence.
  print_payload-line :
      (rest : M (Shell C F) (Unit {0})) (bytes : List ℕ) (h : Host C F) (held : List (List ℕ))
      → (print_payload C F K bytes >> rest) (record { host = h; printed = held })
        ≡ rest (record { host = h; printed = held ++ payload_line bytes })
  print_payload-line rest [] h held = rw append-nil
  print_payload-line rest (b ∷ bs) h held = refl

  print_listing-prints :
      (n : ℕ) (s : Shell C F) (ps rest qs : List Packet) (last : Packet)
      → All (λ p. ends_file p ≡ false) ps
      → ends_file last ≡ true
      → ch.Inbox s.host.conn (ps ++ (last ∷ rest))
      → ch.Outbox s.host.conn qs
      → (c : C.Conn) × (print_listing C F K (more ps (suc n)) s
          ≡ ok tt (record { host = record (s.host) { conn = c }; printed = s.printed ++ lines ps }))
        × ch.Inbox c rest
        × ch.Outbox c qs
  unfolding print_listing
  print_listing-prints n s [] rest qs last go stop i o =
      let (c, r, i', o') = ch.receive-next s.host.conn last rest qs i o in
      (
        c,
        >>=-ok (on_host C F K (on_conn C F C.receive)) _ s
              (on_host-ok (on_conn C F C.receive) s (on_conn-ok C F C.receive s.host r))
            ∙ rw stop (rw append-nil refl),
        i',
        o',
      )
  print_listing-prints n s (p ∷ ps) rest qs last go stop i o =
      let (c, r, i', o') = ch.receive-next s.host.conn p (ps ++ (last ∷ rest)) qs i o in
      let t : Shell C F = record {
        host = record (s.host) { conn = c };
        printed = s.printed ++ payload_line (payload_bytes p.payload);
      } in
      let (d, e, i'', o'') = print_listing-prints n t ps rest qs last go.1 stop i' o' in
      (
        d,
        >>=-ok (on_host C F K (on_conn C F C.receive)) _ s
              (on_host-ok (on_conn C F C.receive) s (on_conn-ok C F C.receive s.host r))
            ∙ rw (go.0) (
                print_payload-line (print_listing C F K (more ps (suc n))) (payload_bytes p.payload)
                  (record (s.host) { conn = c }) s.printed)
            ∙ e
            ∙ ap (λ l. ok tt (record { host = record (s.host) { conn = d }; printed = l }))
                (append_assoc s.printed (payload_line (payload_bytes p.payload)) (lines ps)),
        i'',
        o'',
      )

  -- The request goes out, and the packets up to the closing one are printed.
  pub list_remote-prints :
      (n : ℕ) (s : Shell C F) (ps rest qs : List Packet) (last : Packet)
      → All (λ p. ends_file p ≡ false) ps
      → ends_file last ≡ true
      → ch.Inbox s.host.conn (ps ++ (last ∷ rest))
      → ch.Outbox s.host.conn qs
      → (c : C.Conn) × (list_remote C F K (more ps (suc n)) s
          ≡ ok tt (record { host = record (s.host) { conn = c }; printed = s.printed ++ lines ps }))
        × ch.Inbox c rest
        × ch.Outbox c (qs ++ (bare_packet (number list) ∷ []))
  unfolding list_remote
  list_remote-prints n s ps rest qs last go stop i o =
      let (c, r, i', o') =
        ch.send-sendable s.host.conn (number list) 1 (codes "xxx") (ps ++ (last ∷ rest)) qs
          (omega arith) (omega arith) (omega arith) i o in
      let (d, e, i'', o'') =
        print_listing-prints n (record s { host = record (s.host) { conn = c } }) ps rest
          (qs ++ (bare_packet (number list) ∷ [])) last go stop i' o' in
      (
        d,
        >>=-ok (on_host C F K (on_conn C F (send_bare C list 1))) _ s (
              on_host-ok (on_conn C F (send_bare C list 1)) s
                (on_conn-ok C F (send_bare C list 1) s.host r))
            ∙ e,
        i'',
        o'',
      )

listing_packet : List ℕ → Packet
listing_packet text = make_packet (number data_chunk) 1 text

listing_packet-line :
    (text : List ℕ) → IsSendable text → lines (listing_packet text ∷ []) ≡ (text ++ codes "\n") ∷ []
unfolding listing_packet make_packet
listing_packet-line [] h = absurd (omega arith)
listing_packet-line (b ∷ bs) h = refl

listing_packet-goes_on : (text : List ℕ) → ends_file (listing_packet text) ≡ false
unfolding listing_packet make_packet
listing_packet-goes_on text = refl

bare_packet-stops : ends_file (bare_packet (number end_of_file)) ≡ true
unfolding make_packet
bare_packet-stops = refl

listing-Carries :
    (text : List ℕ)
    → IsSendable text
    → All Carries (listing_packet text ∷ bare_packet (number end_of_file) ∷ [])
unfolding listing_packet
listing-Carries text fits = (
  make_packet-Carries (number data_chunk) 1 text (omega arith) (omega arith) fits,
  (
    make_packet-Carries (number end_of_file) 1 (codes "xxx") (omega arith) (omega arith)
        (omega arith),
    tt,
  ),
)

module _ (P Q : Platform) (p_sound : IsPlatform P) (q_sound : IsPlatform Q) (F G : FileSystem)
    (K : Copier F) where
  -- End to end over the sockets of two hosts with any byte orders and kernels that are reliable:
  -- if the request that `commandThread` has read is `t_LIST` with a payload, the listing or the
  -- notice that there is none has 1 to 2048 bytes, the server's connection has nothing left to
  -- read and nothing sent, and the client's connection is one on which a given list of bytes can
  -- be read and nothing has been sent, then the server's answer returns with its files as they
  -- were, and with the bytes that it has put on its socket as those to be read by the client, the
  -- client's `list_server` returns after two rounds, with its files as they were, and has printed
  -- exactly that text as one line.
  pub listing-arrives :
      (list_files : G.State → List ℕ) (served : FileManager) (request : Packet) (asked : List ℕ)
      (c : P.kernel.Conn) (server : List ℕ) (g : G.State) (wired : List ℕ → Q.kernel.Conn)
      (client : List ℕ) (s : F.State) (printed : List (List ℕ))
      → request.kind ≡ number list
      → request.payload ≡ some asked
      → IsSendable (listing_or_notice (list_files g))
      → p_sound.up.incoming c ≡ []
      → p_sound.up.outgoing c ≡ []
      → ((bs : List ℕ) → q_sound.up.incoming (wired bs) ≡ bs)
      → ((bs : List ℕ) → q_sound.up.outgoing (wired bs) ≡ [])
      → (m : Manager P) × (c' : P.kernel.Conn) × (d : Manager Q) × (answer
            (socket_channel P)
            G
            served
            list_files
            request
            (record { conn = connected P c server; files = g })
          ≡ ok tt (record { conn = m; files = g }))
        × (m.socket ≡ some c')
        × (list_remote (socket_channel Q) F K 2 (record {
          host = record { conn = connected Q (wired (p_sound.up.outgoing c')) client; files = s };
          printed = printed;
        })
            ≡ ok tt (record {
              host = record { conn = d; files = s };
              printed = printed ++ ((listing_or_notice (list_files g) ++ codes "\n") ∷ []);
            }))
  unfolding listing_packet
  listing-arrives list_files served request asked c server g wired client s printed k e fits i o wi
        wo =
      let text = listing_or_notice (list_files g) in
      let (m, a, i', o') =
        answer_list-sends (socket_channel P) (socket_channel-IsChannel P p_sound) G served
          list_files request asked (record { conn = connected P c server; files = g }) [] [] k e
          fits (i, tt) o in
      let (c', opened, arrived) =
        delivered P Q p_sound q_sound wired wi m.socket
          (listing_packet text ∷ bare_packet (number end_of_file) ∷ []) (listing-Carries text fits)
          o' in
      let start : Shell (socket_channel Q) F = record {
        host = record { conn = connected Q (wired (p_sound.up.outgoing c')) client; files = s };
        printed = printed;
      } in
      let (d, r, i'', o'') =
        list_remote-prints (socket_channel Q) (socket_channel-IsChannel Q q_sound) F K 0 start
          (listing_packet text ∷ []) [] [] (bare_packet (number end_of_file))
          (listing_packet-goes_on text, tt) bare_packet-stops arrived
          (wo (p_sound.up.outgoing c')) in
      (
        m,
        c',
        d,
        a,
        opened,
        r
            ∙ ap
                (λ l.
                  ok tt (record { host = record { conn = d; files = s }; printed = printed ++ l }))
                (listing_packet-line text fits),
      )
