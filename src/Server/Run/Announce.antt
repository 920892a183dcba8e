-- ===== src/Server/Run/Announce.antt =====
-- Who is told of a new client.
use so2_final.Base.{
  ℕ, ◌+◌, ◌*◌, ◌≤◌, ◌≡◌, refl, sym, ap, subst, ◌∙◌, none, some, List, [], ◌∷◌, ◌++◌, length,
  length-append, map, codes, ok, >>=-ok, append_assoc, append-nil, arith,
}
use so2_final.Network.Packet.{Packet, number, make_packet, client_connection, client}
use so2_final.Network.Channel.{Channel, IsChannel, IsSendable, send_text}
use so2_final.Network.Sockets.{Sockets}
use so2_final.Files.System.{FileSystem}
use so2_final.Network.Setup.{Endpoint, create_and_setup_socket, accept_connection}
use so2_final.Files.Manager.{FileManager}
use so2_final.ClientManager.{make_client_files}
use so2_final.Decimal.{to_string}
use so2_final.Decimal.RoundTrip.{length-to_string}
use so2_final.Device.Text.{until_zero, c_string}
use so2_final.Server.{
  leading, register, announcements, announcements_from, client_exists, new_client,
}
use so2_final.Server.Run.{
  Hub, Round, await_backup, send_announcement, announce_to, announce_all, tell_peers, welcome,
  serve_client, accept_packet,
}

-- The system makes every socket that it is asked for, and every peer that is told connects.
pub record IsGenerous (N : Sockets) : Type 0 where
  pub sets_up :
      (s : N.State)
      → (port fd : ℕ) × (s' : N.State) × (create_and_setup_socket N
            (record { sockets = s; socket_fd = none })
          ≡ ok port (record { sockets = s'; socket_fd = some fd }))
  pub accepts :
      (s : N.State) (fd : ℕ)
      → (e : Endpoint N) × (accept_connection N (record { sockets = s; socket_fd = some fd })
          ≡ ok tt e)

module _ (C : Channel) (ch : IsChannel C) (N : Sockets) (G : IsGenerous N) where
  -- The connections have sent these packets.
  abbrev pub Sent : List C.Conn → List (List Packet) → Type 0
  Sent [] [] = Unit {0}
  Sent [] (q ∷ qs) = ⊥
  Sent (c ∷ cs) [] = ⊥
  Sent (c ∷ cs) (q ∷ qs) = ((ps : List Packet) × ch.Inbox c ps × ch.Outbox c q) × Sent cs qs

  abbrev pub notice : List ℕ → Packet
  notice message = make_packet (number client_connection) 0 message

  -- Each connection has sent one of the messages more.
  abbrev pub with_notices : List (List ℕ) → List (List Packet) → List (List Packet)
  with_notices (m ∷ ms) (q ∷ qs) = (q ++ (notice m ∷ [])) ∷ with_notices ms qs
  with_notices [] qs = qs
  with_notices (m ∷ ms) [] = []

  announce_to-steps :
      (c c' : C.Conn) (message : List ℕ) (r : Round C N) (port : ℕ) (e e' : Endpoint N)
      → create_and_setup_socket N (record { sockets = r.sockets; socket_fd = none }) ≡ ok port e
      → send_text C client_connection 0 (message ++ (codes " " ++ to_string port)) c ≡ ok tt c'
      → accept_connection N e ≡ ok tt e'
      → announce_to C N c message r
        ≡ ok (message ++ (codes " " ++ to_string port)) (record {
          sockets = e'.sockets;
          told = r.told ++ (c' ∷ []);
          made = r.made ++ (e'.socket_fd ∷ []);
        })
  unfolding announce_to
  announce_to-steps c c' message r port e e' made sent accepted =
      rw (made, announce_to) (rw (sent, send_announcement) (rw (accepted, await_backup)))

  announce_to-tells :
      (c : C.Conn) (message : List ℕ) (r : Round C N) (ps qs : List Packet)
      → length message + 11 ≤ 2048
      → ch.Inbox c ps
      → ch.Outbox c qs
      → (port : ℕ) × (c' : C.Conn) × (r' : Round C N) × (announce_to C N c message r
          ≡ ok (message ++ (codes " " ++ to_string port)) r')
        × (r'.told ≡ r.told ++ (c' ∷ []))
        × ch.Inbox c' ps
        × ch.Outbox c' (qs ++ (notice (message ++ (codes " " ++ to_string port)) ∷ []))
  announce_to-tells c message r ps qs short i o =
      let (port, fd, opened, made) = G.sets_up r.sockets in
      let text = message ++ (codes " " ++ to_string port) in
      let fits : IsSendable text =
        omega
          (arith, length-append message (codes " " ++ to_string port), (length-to_string port).1) in
      let (c', sent, i', o') =
        ch.send-sendable c (number client_connection) 0 text ps qs (omega arith) (omega arith) fits
          i o in
      let (e', accepted) = G.accepts opened fd in
      let e : Endpoint N = record { sockets = opened; socket_fd = some fd } in
      (
        port,
        c',
        record {
          sockets = e'.sockets;
          told = r.told ++ (c' ∷ []);
          made = r.made ++ (e'.socket_fd ∷ []);
        },
        announce_to-steps c c' message r port e e' made sent accepted,
        refl,
        i',
        o',
      )

  -- Every connection sends one announcement more, and the numbers of ports and peers agree.
  announce_all-tells :
      (cs : List C.Conn) (message : List ℕ) (r : Round C N) (qss : List (List Packet))
      → length message + 11 * length cs ≤ 2048
      → Sent cs qss
      → (ports : List ℕ) × (cs' : List C.Conn) × (r' : Round C N) × (announce_all C N cs message r
          ≡ ok tt r')
        × (r'.told ≡ r.told ++ cs')
        × (length ports ≡ length cs)
        × Sent cs' (with_notices (announcements_from message (map to_string ports)) qss)
  unfolding announce_all announcements_from
  announce_all-tells [] message r [] short s = ([], [], r, refl, sym (append-nil r.told), refl, tt)
  announce_all-tells [] message r (q ∷ qss) short s = absurd s
  announce_all-tells (c ∷ cs) message r [] short s = absurd s
  announce_all-tells (c ∷ cs) message r (q ∷ qss) short s =
      let (ps, i, o) = s.0 in
      let (port, c', r', e, told, i', o') = announce_to-tells c message r ps q (omega arith) i o in
      let text = message ++ (codes " " ++ to_string port) in
      let longer : length text + 11 * length cs ≤ 2048 =
        omega
          (arith, length-append message (codes " " ++ to_string port), (length-to_string port).1) in
      let (ports, cs', r'', e', told', same, s') = announce_all-tells cs text r' qss longer s.1 in
      (
        port ∷ ports,
        c' ∷ cs',
        r'',
        >>=-ok (announce_to C N c message) (announce_all C N cs) r e ∙ e',
        told' ∙ ap (λ t. t ++ cs') told ∙ append_assoc r.told (c' ∷ []) cs',
        omega arith,
        ((ps, i', o'), s'),
      )

  accept_packet-client :
      (F : FileSystem) (c : C.Conn) (p : Packet) (text name : List ℕ) (h : Hub C N F)
      → p.kind ≡ number client
      → p.payload ≡ some text
      → until_zero text ≡ name
      → accept_packet C N F c p h ≡ serve_client C N F name h
  unfolding accept_packet c_string
  accept_packet-client F c p text name h k e whole = rw (e, k) (rw whole)

  serve_client-new :
      (F : FileSystem) (b : ℕ) (bs : List ℕ) (h : Hub C N F) (f : FileManager) (g : F.State)
      (r : Round C N)
      → client_exists (b ∷ bs) h.server.clients ≡ none
      → make_client_files F (b ∷ bs) h.files ≡ ok f g
      → announce_all C N h.peers
          (codes "CLIENT_CONNECTION " ++ (b ∷ bs))
          (record { sockets = h.sockets; told = []; made = [] })
        ≡ ok tt r
      → serve_client C N F (b ∷ bs) h
        ≡ ok tt (record {
          server = record (h.server) { clients = register leading (b ∷ bs) h.server.clients };
          files = g;
          sockets = r.sockets;
          peers = r.told;
          backups = h.backups ++ map (λ fd. (b ∷ bs, fd)) r.made;
          handlers = h.handlers ++ ((b ∷ bs) ∷ []);
        })
  unfolding serve_client
  serve_client-new F b bs h f g r fresh able told =
      let welcomed : welcome C N F (b ∷ bs) h
          ≡ ok tt (record {
            server = record (h.server) { clients = register leading (b ∷ bs) h.server.clients };
            files = g;
            sockets = r.sockets;
            peers = r.told;
            backups = h.backups ++ map (λ fd. (b ∷ bs, fd)) r.made;
            handlers = h.handlers;
          }) =
        rw (able, welcome) (rw (told, tell_peers) (rw append-nil refl)) in
      rw (fresh, serve_client) (>>=-ok (welcome C N F (b ∷ bs)) _ h welcomed)

  -- If every socket is made and every peer that is told connects, and the first packet of a new
  -- connection is `t_CLIENT` with the name of a client that is not known, not empty and short
  -- enough that with 18 bytes for the first word and 11 bytes for each peer it is within 2048
  -- bytes, and the client's directory is there or can be made, then the round of `run` returns,
  -- with the client registered behind the others and its connection delivered to its manager, and
  -- every peer has been sent one packet `t_CLIENT_CONNECTION` more: the message with the ports
  -- made for the peers up to this one, as many ports as there are peers.
  pub accept_packet-announces :
      (F : FileSystem) (c : C.Conn) (p : Packet) (text bs : List ℕ) (b : ℕ) (h : Hub C N F)
      (f : FileManager) (g : F.State) (qss : List (List Packet))
      → p.kind ≡ number client
      → p.payload ≡ some text
      → until_zero text ≡ b ∷ bs
      → client_exists (b ∷ bs) h.server.clients ≡ none
      → make_client_files F (b ∷ bs) h.files ≡ ok f g
      → length (b ∷ bs) + 11 * length h.peers ≤ 2030
      → Sent h.peers qss
      → (ports : List ℕ) × (h' : Hub C N F) × (accept_packet C N F c p h ≡ ok tt h')
        × (h'.server.clients ≡ h.server.clients ++ (new_client leading (b ∷ bs) ∷ []))
        × (h'.handlers ≡ h.handlers ++ ((b ∷ bs) ∷ []))
        × (length ports ≡ length h.peers)
        × Sent h'.peers (with_notices (announcements (b ∷ bs) (map to_string ports)) qss)
  unfolding announcements register
  accept_packet-announces F c p text bs b h f g qss k e whole fresh able short s =
      let (ports, cs, r, told, same, len, s') =
        announce_all-tells h.peers (codes "CLIENT_CONNECTION " ++ (b ∷ bs))
          (record { sockets = h.sockets; told = []; made = [] }) qss (omega arith) s in
      (
        ports,
        _,
        accept_packet-client F c p text (b ∷ bs) h k e whole
            ∙ serve_client-new F b bs h f g r fresh able told,
        rw (fresh, register) refl,
        refl,
        len,
        subst (λ l. Sent l (with_notices (announcements (b ∷ bs) (map to_string ports)) qss))
            (sym same) s',
      )
