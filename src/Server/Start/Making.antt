-- ===== src/Server/Start/Making.antt =====
-- The two constructors of `Server`. What `getLocalIP` returns is an argument.
pub mod Asking
use so2_final.Base.{
  ℕ, ◌≡◌, refl, subst, Option, none, some, List, [], ◌∷◌, M, Result, ok, err, hang, ◌>>=◌, ◌>>◌,
  return,
}
use so2_final.Network.Channel.{Channel}
use so2_final.Network.Sockets.{Sockets, IsSockets}
use so2_final.Network.Setup.{Endpoint, connect_to}
use so2_final.Network.Setup.Descriptors.{Connects, connect_to-Connects}
use so2_final.Decimal.{Signed, low_bits}
use so2_final.Server.{State, Server}
use so2_final.Server.Join.{join_leader}
use so2_final.Server.Start.{create_main_socket, Starts, create_main_socket-Starts}

-- The process of a server: `main_socket_fd`, and for a backup the connection to its leader.
pub record Berth (C : Channel) (N : Sockets) : Type 0 where
  pub sockets : N.State
  pub main_socket_fd : Option ℕ
  pub leader_connection : Option C.Conn

module _ (C : Channel) (N : Sockets) where
  -- What follows in a constructor on the main socket. A failure of that ends the process: `none`.
  with_main_socket : ℕ → Server → M (Berth C N) (Unit {0}) → M (Berth C N) (Option Server)
  with_main_socket port server rest b =
      let (fd, s) = create_main_socket N port b.sockets in
      elim fd [
        | none ↦ ok none (record b { sockets = s })
        | some d ↦
            (do rest; return (some server)) (record b { sockets = s; main_socket_fd = some d })
      ]

  -- The constructor of a leader.
  unfoldable pub make_leader : State → ℕ → List ℕ → M (Berth C N) (Option Server)
  unfolding with_main_socket
  make_leader state running_port local_ip =
      with_main_socket running_port (record { state = state; ip = local_ip; clients = [] })
        (return tt)

  -- `link` is the connection on a descriptor that is connected.
  module _ (link : Option ℕ → C.Conn) where
    connect_leader : List ℕ → ℕ → M (Berth C N) (Unit {0})
    connect_leader ip port b =
        elim (connect_to N ip port (record { sockets = b.sockets; socket_fd = none })) [
          | ok u e ↦
              ok tt (record b { sockets = e.sockets; leader_connection = some (link e.socket_fd) })
          | err x e ↦ err x (record b { sockets = e.sockets })
          | hang w ↦ hang w
        ]

    -- Up to the start of the thread that serves the leader.
    ask_leader : M (Berth C N) (Unit {0})
    ask_leader b = elim b.leader_connection [
      | none ↦ ok tt b
      | some c ↦ elim (join_leader C c) [
        | ok answers c' ↦ ok tt (record b { leader_connection = some c' })
        | err x c' ↦ err x (record b { leader_connection = some c' })
        | hang w ↦ hang w
      ]
    ]

    -- The constructor of a backup. The member `port` is not set: the main socket is bound to what
    -- it happens to hold, `unset`, and `running_port` is not used.
    unfoldable pub make_backup :
        State → ℕ → ℕ → List ℕ → List ℕ → Signed → M (Berth C N) (Option Server)
    unfolding with_main_socket connect_leader ask_leader
    make_backup state running_port unset local_ip ip port =
        with_main_socket unset (record { state = state; ip = local_ip; clients = [] })
          (do connect_leader ip (low_bits port); ask_leader)
