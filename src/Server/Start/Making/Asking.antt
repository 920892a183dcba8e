-- ===== src/Server/Start/Making/Asking.antt =====
-- A backup that starts while its leader answers.
use so2_final.Base.{
  ℕ, ◌≡◌, refl, ap, ◌∙◌, Option, some, none, List, [], ◌∷◌, ◌++◌, M, Result, ok, >>=-ok, return,
  ◌>>◌,
}
use so2_final.Network.Packet.{Packet, who_is_leader, get_clients}
use so2_final.Network.Channel.{Channel, IsChannel}
use so2_final.Network.Sockets.{Sockets}
use so2_final.Network.Setup.{Endpoint, connect_to}
use so2_final.Decimal.{Signed, low_bits}
use so2_final.Server.{State, Server}
use so2_final.Server.Join.{join_leader}
use so2_final.Server.Join.Rounds.{greeting, bare_question, join_leader-asks}
use so2_final.Server.Start.{create_main_socket}
use so2_final.Server.Start.Making.{Berth, with_main_socket, connect_leader, ask_leader, make_backup}

module _ (C : Channel) (ch : IsChannel C) (N : Sockets) (link : Option ℕ → C.Conn) where
  ask_leader-ok :
      (b : Berth C N) (c c' : C.Conn) (answers : Packet × Packet)
      → b.leader_connection ≡ some c
      → join_leader C c ≡ ok answers c'
      → ask_leader C N link b ≡ ok tt (record b { leader_connection = some c' })
  unfolding ask_leader
  ask_leader-ok b c c' answers linked asked = rw (linked, ask_leader) (rw asked refl)

  connect_leader-ok :
      (ip : List ℕ) (port : ℕ) (b : Berth C N) (e : Endpoint N)
      → connect_to N ip port (record { sockets = b.sockets; socket_fd = none }) ≡ ok tt e
      → connect_leader C N link ip port b
        ≡ ok tt (record b { sockets = e.sockets; leader_connection = some (link e.socket_fd) })
  unfolding connect_leader
  connect_leader-ok ip port b e connected = rw (connected, connect_leader) refl

  with_main_socket-ok :
      (port d : ℕ) (s : N.State) (server : Server) (rest : M (Berth C N) (Unit {0}))
      (b b' : Berth C N)
      → create_main_socket N port b.sockets ≡ (some d, s)
      → rest (record b { sockets = s; main_socket_fd = some d }) ≡ ok tt b'
      → with_main_socket C N port server rest b ≡ ok (some server) b'
  unfolding with_main_socket
  with_main_socket-ok port d s server rest b b' made done =
      ap
        (λ r. elim r.0 as (λ _. Result (Berth C N) (Option Server)) [
          | none ↦ ok none (record b { sockets = r.1 })
          | some fd ↦
              (rest >> return (some server)) (record b { sockets = r.1; main_socket_fd = some fd })
        ])
        made
      ∙ >>=-ok rest _ (record b { sockets = s; main_socket_fd = some d }) done

  -- If the main socket is made, the leader accepts, and two packets are first to be read on the
  -- connection, then the constructor of a backup comes to its thread: it knows no clients, its
  -- main socket is bound to what the member `port` happened to hold, whatever port it was started
  -- with, and it has sent the leader its three packets and no other.
  pub make_backup-asks :
      (state : State) (running_port unset : ℕ) (local_ip ip : List ℕ) (port : Signed)
      (b : Berth C N) (d : ℕ) (s : N.State) (e : Endpoint N) (p p2 : Packet) (ps qs : List Packet)
      → create_main_socket N unset b.sockets ≡ (some d, s)
      → connect_to N ip (low_bits port) (record { sockets = s; socket_fd = none }) ≡ ok tt e
      → ch.Inbox (link e.socket_fd) (p ∷ p2 ∷ ps)
      → ch.Outbox (link e.socket_fd) qs
      → (c : C.Conn) × (make_backup C N link state running_port unset local_ip ip port b
          ≡ ok
              (some (record { state = state; ip = local_ip; clients = [] }))
              (record { sockets = e.sockets; main_socket_fd = some d; leader_connection = some c }))
        × ch.Inbox c ps
        × ch.Outbox c (
            ((qs ++ (greeting ∷ [])) ++ (bare_question who_is_leader ∷ []))
            ++ (bare_question get_clients ∷ []))
  unfolding make_backup
  make_backup-asks state running_port unset local_ip ip port b d s e p p2 ps qs made accepted i o =
      let (c, asked, i', o') = join_leader-asks C ch (link e.socket_fd) p p2 ps qs i o in
      let b1 : Berth C N = record b { sockets = s; main_socket_fd = some d } in
      let b2 : Berth C N = record b1 {
        sockets = e.sockets;
        leader_connection = some (link e.socket_fd);
      } in
      (
        c,
        with_main_socket-ok unset d s _
            (connect_leader C N link ip (low_bits port) >> ask_leader C N link) b
            (record b2 { leader_connection = some c }) made
            (>>=-ok (connect_leader C N link ip (low_bits port)) (λ _. ask_leader C N link) b1
                (connect_leader-ok ip (low_bits port) b1 e accepted)
              ∙ ask_leader-ok b2 (link e.socket_fd) c (p, p2) refl asked),
        i',
        o',
      )
