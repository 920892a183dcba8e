-- ===== src/Network/Setup.antt =====
-- The functions of Utils/NetworkManager.cpp that make sockets and connections.
pub mod Descriptors
pub mod Retries
pub mod Balance
use so2_final.Base.{
  ℕ, zero, suc, ◌≡◌, Bool, true, false, Option, none, some, List, ◌==◌, if◌then◌else◌, M, ok, err,
  socket_failed, bind_failed, listen_failed, name_failed, accept_failed, connect_failed,
  bad_address, socket_not_initialized, socket_initialized,
}
use so2_final.Network.Sockets.{Sockets}

-- A `NetworkManager`, with the sockets of the process. `socket_fd` is `none` for -1.
pub record Endpoint (N : Sockets) : Type 0 where
  pub sockets : N.State
  pub socket_fd : Option ℕ

module _ (N : Sockets) where
  name_socket : ℕ → M (Endpoint N) ℕ
  name_socket fd e = elim (N.port_of e.sockets fd) [
    | none ↦ err name_failed (record e { sockets = N.close e.sockets fd })
    | some port ↦ ok port (record e { socket_fd = some fd })
  ]

  listen_socket : ℕ → M (Endpoint N) ℕ
  unfolding name_socket
  listen_socket fd e =
      let (listens, s) = N.listen e.sockets fd 1 in
      if listens
      then name_socket fd (record e { sockets = s })
      else err listen_failed (record e { sockets = N.close s fd })

  bind_socket : ℕ → M (Endpoint N) ℕ
  unfolding listen_socket
  bind_socket fd e =
      let (bound, s) = N.bind e.sockets fd in
      if bound
      then listen_socket fd (record e { sockets = s })
      else err bind_failed (record e { sockets = N.close s fd })

  -- The result is the port that the system chose.
  unfoldable pub create_and_setup_socket : M (Endpoint N) ℕ
  unfolding bind_socket
  create_and_setup_socket e =
      let (fd, s) = N.socket e.sockets in
      elim fd [
        | none ↦ err socket_failed (record e { sockets = s })
        | some d ↦ bind_socket d (record e { sockets = s })
      ]

  accept_on : ℕ → M (Endpoint N) (Unit {0})
  accept_on fd e =
      let (client, s) = N.accept e.sockets fd in
      elim client [
        | none ↦ err accept_failed (record e { sockets = s })
        | some d ↦ ok tt (record { sockets = N.close s fd; socket_fd = some d })
      ]

  unfoldable pub accept_connection : M (Endpoint N) (Unit {0})
  unfolding accept_on
  accept_connection e = elim e.socket_fd [
    | none ↦ err socket_not_initialized e
    | some fd ↦ elim (N.port_of e.sockets fd) [
      | none ↦ err name_failed e
      | some port ↦ accept_on fd e
    ]
  ]

  -- `getPort` and `getIP`
  unfoldable pub get_port : M (Endpoint N) ℕ
  get_port e = elim e.socket_fd [
    | none ↦ err socket_not_initialized e
    | some fd ↦ elim (N.port_of e.sockets fd) [ none ↦ err name_failed e | some port ↦ ok port e ]
  ]

  unfoldable pub get_ip : M (Endpoint N) (List ℕ)
  get_ip e = elim e.socket_fd [
    | none ↦ err socket_not_initialized e
    | some fd ↦ elim (N.port_of e.sockets fd) [
      | none ↦ err name_failed e
      | some port ↦ elim (N.ip_of e.sockets fd) [ none ↦ err bad_address e | some text ↦ ok text e ]
    ]
  ]

  unfoldable pub close_connection : Endpoint N → Endpoint N
  close_connection e = elim e.socket_fd [
    | none ↦ e
    | some fd ↦ record { sockets = N.close (N.shutdown e.sockets fd) fd; socket_fd = none }
  ]

  -- Behind the call of `socket`. On failure the descriptor is closed, and kept.
  connect_on : List ℕ → ℕ → ℕ → M (Endpoint N) (Unit {0})
  connect_on ip port fd e = elim (N.inet_pton ip) [
    | none ↦ err bad_address (record { sockets = N.close e.sockets fd; socket_fd = some fd })
    | some a ↦
        let (connects, s) = N.connect e.sockets (some fd) a port in
        if connects
        then ok tt (record { sockets = s; socket_fd = some fd })
        else err connect_failed (record { sockets = N.close s fd; socket_fd = some fd })
  ]

  unfoldable pub connect_to : List ℕ → ℕ → M (Endpoint N) (Unit {0})
  unfolding connect_on
  connect_to ip port e = elim e.socket_fd [
    | some fd ↦ err socket_initialized e
    | none ↦
        let (fd, s) = N.socket e.sockets in
        elim fd [
          | none ↦ err socket_failed (record { sockets = s; socket_fd = none })
          | some d ↦ connect_on ip port d (record { sockets = s; socket_fd = none })
        ]
  ]

  -- `close(sock)`, which does nothing for -1.
  abbrev pub close_any : Option ℕ → N.State → N.State
  close_any none s = s
  close_any (some fd) s = N.close s fd

  -- The loop of `connect_to_socket`; `left` is `max_retries - retries`.
  connect_loop : ℕ → Option ℕ → N.Address → ℕ → N.State → Option ℕ × N.State
  connect_loop zero fd a port s =
      let (connects, s') = N.connect s fd a port in
      if connects then (fd, s') else (none, close_any fd s')
  connect_loop (suc left) fd a port s =
      let (connects, s') = N.connect s fd a port in
      let rest = connect_loop left fd a port s' in if connects then (fd, s') else rest

  abbrev pub max_retries : ℕ
  max_retries = 150

  -- That the call of `socket` failed is not tested for.
  unfoldable pub connect_to_socket : List ℕ → ℕ → N.State → Option ℕ × N.State
  unfolding connect_loop
  connect_to_socket ip port s =
      let (fd, s') = N.socket s in
      elim (N.inet_pton ip) [
        | none ↦ (none, close_any fd s')
        | some a ↦ connect_loop max_retries fd a port s'
      ]

  -- The constructor that connects. Its test is `sock <= 0`, so the descriptor 0 is refused too.
  unfoldable pub connect_manager : List ℕ → ℕ → M (Endpoint N) (Unit {0})
  unfolding connect_to_socket
  connect_manager ip port e =
      let (sock, s) = connect_to_socket ip port e.sockets in
      elim sock [
        | none ↦ err socket_failed (record { sockets = s; socket_fd = none })
        | some fd ↦
            let made : Endpoint N = record { sockets = s; socket_fd = some fd } in
            if fd == 0 then err socket_failed made else ok tt made
      ]
