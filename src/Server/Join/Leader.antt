-- ===== src/Server/Join/Leader.antt =====
-- A backup that joins, and the leader that answers it.
use so2_final.Base.{ℕ, ◌≡◌, sym, subst, some, Option, List, [], ◌∷◌, ◌++◌, codes, ok, All, arith}
use so2_final.Network.Packet.{
  Packet, PacketType, number, who_is_leader, get_clients, leader, clients,
}
use so2_final.Network.Manager.{Platform, IsPlatform, Manager, connected}
use so2_final.Network.Channel.{IsSendable}
use so2_final.Network.Channel.Socket.{
  Carries, make_packet-Carries, wires, socket_channel, socket_channel-IsChannel,
}
use so2_final.Network.Sockets.{Sockets}
use so2_final.Files.System.{FileSystem}
use so2_final.Server.{peer_rounds}
use so2_final.Server.Run.{Hub, serve_connection}
use so2_final.Server.Join.{join_leader}
use so2_final.Client.Session.{delivered, Outgoing-open}
use so2_final.Server.Join.Rounds.{
  beside, lone, greeting, bare_question, leader_packet, clients_packet, join_leader-asks,
  peer_rounds-answers, serve_connection_peer,
}

abbrev pub questions : List Packet
questions = greeting ∷ bare_question who_is_leader ∷ bare_question get_clients ∷ []

questions-Carries : All Carries questions
questions-Carries = (
  make_packet-Carries (number PacketType.peer) 1 (codes "0") (omega arith) (omega arith)
      (omega arith),
  (
    make_packet-Carries (number who_is_leader) 0 (codes "xxx") (omega arith) (omega arith)
        (omega arith),
    (
      make_packet-Carries (number get_clients) 0 (codes "xxx") (omega arith) (omega arith)
          (omega arith),
      tt,
    ),
  ),
)

answers-Carries :
    (ip : List ℕ) → IsSendable ip → All Carries (leader_packet ip ∷ clients_packet ∷ [])
answers-Carries ip fits = (
  make_packet-Carries (number leader) 0 ip (omega arith) (omega arith) fits,
  (
    make_packet-Carries (number clients) 0 (codes "[]") (omega arith) (omega arith) (omega arith),
    tt,
  ),
)

module _ (P Q : Platform) (p_sound : IsPlatform P) (q_sound : IsPlatform Q) (N : Sockets)
    (F : FileSystem) (wired_p : List ℕ → P.kernel.Conn) (wired_q : List ℕ → Q.kernel.Conn) where
  -- End to end over the sockets of two hosts with any byte orders and kernels that are reliable:
  -- if the leader serves no client, its address is a text of 1 to 2048 bytes, and the connections
  -- of both are ones on which a given list of bytes can be read and nothing has been sent, then
  -- there are bytes such that a joining backup on which they can be read returns with the packet
  -- of the leader's address and the packet of the empty list of clients; and with what the backup
  -- has put on its socket as the bytes to be read by the leader, the body of `run` registers the
  -- connection as that of a peer, and the first two rounds of `handlePeerThread` on it return with
  -- the server as it was, and put exactly those bytes on the leader's socket.
  pub join_leader-joins :
      (ip backup_name leader_name : List ℕ) (files : F.State) (sockets : N.State)
      (descriptor : Option ℕ) (h : Hub (socket_channel Q) N F)
      → h.server ≡ lone ip
      → IsSendable ip
      → ((bs : List ℕ) → p_sound.up.incoming (wired_p bs) ≡ bs)
      → ((bs : List ℕ) → p_sound.up.outgoing (wired_p bs) ≡ [])
      → ((bs : List ℕ) → q_sound.up.incoming (wired_q bs) ≡ bs)
      → ((bs : List ℕ) → q_sound.up.outgoing (wired_q bs) ≡ [])
      → (bs : List ℕ) × (m : Manager P) × (c : P.kernel.Conn) × (n k : Manager Q)
        × (d : Q.kernel.Conn) × (join_leader
              (socket_channel P)
              (connected P (wired_p bs) backup_name)
            ≡ ok (leader_packet ip, clients_packet) m)
        × (m.socket ≡ some c)
        × (serve_connection
              (socket_channel Q)
              N
              F
              (connected Q (wired_q (p_sound.up.outgoing c)) leader_name)
              h
            ≡ ok tt (record h { peers = h.peers ++ (n ∷ []) }))
        × (peer_rounds (socket_channel Q) N F 2 (
              beside
                (socket_channel Q)
                (socket_channel-IsChannel Q q_sound)
                N
                F
                files
                sockets
                descriptor
                n
                h.server)
            ≡ ok tt (
                beside
                  (socket_channel Q)
                  (socket_channel-IsChannel Q q_sound)
                  N
                  F
                  files
                  sockets
                  descriptor
                  k
                  h.server))
        × (k.socket ≡ some d)
        × (q_sound.up.outgoing d ≡ bs)
  join_leader-joins ip backup_name leader_name files sockets descriptor h alone fits wip wop wiq
        woq =
      let bs = wires (leader_packet ip ∷ clients_packet ∷ []) in
      let (m, joined, i, o) =
        join_leader-asks (socket_channel P) (socket_channel-IsChannel P p_sound)
          (connected P (wired_p bs) backup_name) (leader_packet ip) clients_packet [] []
          (wip bs, answers-Carries ip fits) (wop bs) in
      let (c, opened, arrived) =
        delivered P Q p_sound q_sound wired_q wiq m.socket questions questions-Carries o in
      let (n, served, i', o') =
        serve_connection_peer (socket_channel Q) (socket_channel-IsChannel Q q_sound) N F
          (connected Q (wired_q (p_sound.up.outgoing c)) leader_name) h
          (bare_question who_is_leader ∷ bare_question get_clients ∷ []) [] arrived
          (woq (p_sound.up.outgoing c)) in
      let (k, answered, o'') =
        peer_rounds-answers (socket_channel Q) (socket_channel-IsChannel Q q_sound) N F files
          sockets descriptor ip n [] [] fits i' o' in
      let (d, opened', told) =
        Outgoing-open Q q_sound k.socket (leader_packet ip ∷ clients_packet ∷ []) o'' in
      let answered' =
        subst
          (λ server.
            peer_rounds (socket_channel Q) N F 2 (
              beside (socket_channel Q) (socket_channel-IsChannel Q q_sound) N F files sockets
                descriptor n server)
            ≡ ok tt (
                beside (socket_channel Q) (socket_channel-IsChannel Q q_sound) N F files sockets
                  descriptor k server))
          (sym alone) answered in
      (bs, m, c, n, k, d, joined, opened, served, answered', opened', told)
