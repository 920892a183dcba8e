-- ===== src/Server/Join/Rounds.antt =====
-- A backup's questions and a leader's answers, each on its own connection.
use so2_final.Base.{ℕ, M, ◌≡◌, refl, ◌∙◌, Option, List, [], ◌∷◌, ◌++◌, codes, ok, >>=-ok, arith}
use so2_final.Network.Packet.{
  Packet, PacketType, number, make_packet, who_is_leader, get_clients, leader, clients,
}
use so2_final.Network.Lists.{encode_list-nil}
use so2_final.Network.Channel.{Channel, IsChannel, IsSendable, send_text, send_bare}
use so2_final.Network.Sockets.{Sockets}
use so2_final.Files.System.{FileSystem}
use so2_final.Device.Text.{c_string}
use so2_final.Server.{
  Server, Peer, leading, on_peer, list_clients, answer_peer, peer_round, peer_rounds,
}
use so2_final.Server.Run.{Hub, accept_packet, serve_connection}
use so2_final.Server.Join.{join_leader}

-- A leader that serves no client.
abbrev pub lone : List ℕ → Server
lone ip = record { state = leading; ip = ip; clients = [] }

-- What a backup asks, and what a leader that serves no client answers.
abbrev pub greeting : Packet
greeting = make_packet (number PacketType.peer) 1 (codes "0")

abbrev pub bare_question : PacketType → Packet
bare_question t = make_packet (number t) 0 (codes "xxx")

abbrev pub leader_packet : List ℕ → Packet
leader_packet ip = make_packet (number leader) 0 ip

abbrev pub clients_packet : Packet
clients_packet = make_packet (number clients) 0 (codes "[]")

module _ (C : Channel) (ch : IsChannel C) where
  pub join_leader-asks :
      (c : C.Conn) (p p2 : Packet) (ps qs : List Packet)
      → ch.Inbox c (p ∷ p2 ∷ ps)
      → ch.Outbox c qs
      → (c' : C.Conn) × (join_leader C c ≡ ok (p, p2) c')
        × ch.Inbox c' ps
        × ch.Outbox c' (
            ((qs ++ (greeting ∷ [])) ++ (bare_question who_is_leader ∷ []))
            ++ (bare_question get_clients ∷ []))
  unfolding join_leader
  join_leader-asks c p p2 ps qs i o =
      let (c1, s1, i1, o1) =
        ch.send-sendable c (number PacketType.peer) 1 (codes "0") (p ∷ p2 ∷ ps) qs (omega arith)
          (omega arith) (omega arith) i o in
      let (c2, s2, i2, o2) =
        ch.send-sendable c1 (number who_is_leader) 0 (codes "xxx") (p ∷ p2 ∷ ps) _ (omega arith)
          (omega arith) (omega arith) i1 o1 in
      let (c3, r3, i3, o3) = ch.receive-next c2 p (p2 ∷ ps) _ i2 o2 in
      let (c4, s4, i4, o4) =
        ch.send-sendable c3 (number get_clients) 0 (codes "xxx") (p2 ∷ ps) _ (omega arith)
          (omega arith) (omega arith) i3 o3 in
      let (c5, r5, i5, o5) = ch.receive-next c4 p2 ps _ i4 o4 in
      (
        c5,
        >>=-ok (send_text C PacketType.peer 1 (codes "0")) _ c s1
            ∙ >>=-ok (send_bare C who_is_leader 0) _ c1 s2
            ∙ >>=-ok C.receive _ c2 r3
            ∙ >>=-ok (send_bare C get_clients 0) _ c3 s4
            ∙ >>=-ok C.receive _ c4 r5,
        i5,
        o5,
      )

  module _ (N : Sockets) (F : FileSystem) (files : F.State) (sockets : N.State)
      (descriptor : Option ℕ) where
    -- The thread of a peer that follows no client.
    abbrev pub beside : C.Conn → Server → Peer C N F
    beside c server = record {
      conn = c;
      server = server;
      files = files;
      sockets = sockets;
      descriptor = descriptor;
      receivers = [];
    }

    on_peer-ok {ℓ} :
        {A : Type ℓ} (call : M C.Conn A) (p : Peer C N F) {a : A} {c : C.Conn}
        → call p.conn ≡ ok a c
        → on_peer C N F call p ≡ ok a (record p { conn = c })
    on_peer-ok call p e = rw (e, on_peer)

    -- The leader answers with its address.
    answer_peer_leader :
        (ip : List ℕ) (c : C.Conn) (ps qs : List Packet)
        → IsSendable ip
        → ch.Inbox c ps
        → ch.Outbox c qs
        → (c' : C.Conn) × (answer_peer C N F (bare_question who_is_leader) (beside c (lone ip))
            ≡ ok tt (beside c' (lone ip)))
          × ch.Inbox c' ps
          × ch.Outbox c' (qs ++ (leader_packet ip ∷ []))
    unfolding answer_peer c_string make_packet
    answer_peer_leader ip c ps qs fits i o =
        let (c', s, i', o') =
          ch.send-sendable c (number leader) 0 ip ps qs (omega arith) (omega arith) fits i o in
        (c', on_peer-ok (send_text C leader 0 ip) (beside c (lone ip)) s, i', o')

    -- A leader without clients answers with the text of the empty list.
    answer_peer_clients :
        (ip : List ℕ) (c : C.Conn) (ps qs : List Packet)
        → ch.Inbox c ps
        → ch.Outbox c qs
        → (c' : C.Conn) × (answer_peer C N F (bare_question get_clients) (beside c (lone ip))
            ≡ ok tt (beside c' (lone ip)))
          × ch.Inbox c' ps
          × ch.Outbox c' (qs ++ (clients_packet ∷ []))
    unfolding answer_peer c_string make_packet list_clients
    answer_peer_clients ip c ps qs i o =
        let (c', s, i', o') =
          ch.send-sendable c (number clients) 0 (codes "[]") ps qs (omega arith) (omega arith)
            (omega arith) i o in
        (
          c',
          rw encode_list-nil
              (on_peer-ok (send_text C clients 0 (codes "[]")) (beside c (lone ip)) s),
          i',
          o',
        )

    peer_round-answers :
        (server : Server) (c c1 c' : C.Conn) (p : Packet)
        → C.receive c ≡ ok p c1
        → answer_peer C N F p (beside c1 server) ≡ ok tt (beside c' server)
        → peer_round C N F (beside c server) ≡ ok tt (beside c' server)
    unfolding peer_round
    peer_round-answers server c c1 c' p r a =
        >>=-ok (on_peer C N F C.receive) _ (beside c server)
          (on_peer-ok C.receive (beside c server) r)
        ∙ a

    pub peer_rounds-answers :
        (ip : List ℕ) (c : C.Conn) (ps qs : List Packet)
        → IsSendable ip
        → ch.Inbox c (bare_question who_is_leader ∷ bare_question get_clients ∷ ps)
        → ch.Outbox c qs
        → (c' : C.Conn) × (peer_rounds C N F 2 (beside c (lone ip)) ≡ ok tt (beside c' (lone ip)))
          × ch.Outbox c' ((qs ++ (leader_packet ip ∷ [])) ++ (clients_packet ∷ []))
    unfolding peer_rounds
    peer_rounds-answers ip c ps qs fits i o =
        let (c1, r1, i1, o1) =
          ch.receive-next c (bare_question who_is_leader) (bare_question get_clients ∷ ps) qs i o in
        let (c2, a2, i2, o2) =
          answer_peer_leader ip c1 (bare_question get_clients ∷ ps) qs fits i1 o1 in
        let (c3, r3, i3, o3) = ch.receive-next c2 (bare_question get_clients) ps _ i2 o2 in
        let (c4, a4, i4, o4) = answer_peer_clients ip c3 ps _ i3 o3 in
        (
          c4,
          >>=-ok (peer_round C N F) _ (beside c (lone ip))
                (peer_round-answers (lone ip) c c1 c2 (bare_question who_is_leader) r1 a2)
              ∙ >>=-ok (peer_round C N F) _ (beside c2 (lone ip))
                  (peer_round-answers (lone ip) c2 c3 c4 (bare_question get_clients) r3 a4),
          o4,
        )

  -- The first packet makes the connection that of a peer.
  pub serve_connection_peer :
      (N : Sockets) (F : FileSystem) (c : C.Conn) (h : Hub C N F) (ps qs : List Packet)
      → ch.Inbox c (greeting ∷ ps)
      → ch.Outbox c qs
      → (c' : C.Conn) × (serve_connection C N F c h
          ≡ ok tt (record h { peers = h.peers ++ (c' ∷ []) }))
        × ch.Inbox c' ps
        × ch.Outbox c' qs
  unfolding serve_connection accept_packet make_packet
  serve_connection_peer N F c h ps qs i o =
      let (c', r, i', o') = ch.receive-next c greeting ps qs i o in
      (c', rw (r, serve_connection) refl, i', o')
