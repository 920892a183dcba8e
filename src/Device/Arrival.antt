-- ===== src/Device/Arrival.antt =====
-- The constructor of `Device`: it makes two listening sockets, tells the client their ports, and
-- waits for the client on both.
pub mod Balance
use so2_final.Base.{ℕ, Option, ok, err, hang, M, ◌>>=◌, ◌>>◌}
use so2_final.Network.Packet.{PacketType}
use so2_final.Network.Channel.{Channel, send_text}
use so2_final.Network.Sockets.{Sockets}
use so2_final.Network.Setup.{Endpoint, create_and_setup_socket, accept_connection}
use so2_final.Decimal.{to_string}

-- `command_manager` is `conn`; `push` and `watcher` are the descriptors of the two other managers.
pub record Arrival (C : Channel) (N : Sockets) : Type 0 where
  pub conn : C.Conn
  pub sockets : N.State
  pub push : Option ℕ
  pub watcher : Option ℕ

module _ (C : Channel) (N : Sockets) where
  abbrev pub on_command {ℓ} : {A : Type ℓ} → M C.Conn A → M (Arrival C N) A
  on_command call a = elim (call a.conn) [
    | ok x c ↦ ok x (record a { conn = c })
    | err e c ↦ err e (record a { conn = c })
    | hang w ↦ hang w
  ]

  abbrev pub on_push {ℓ} : {A : Type ℓ} → M (Endpoint N) A → M (Arrival C N) A
  on_push call a = elim (call (record { sockets = a.sockets; socket_fd = a.push })) [
    | ok x e ↦ ok x (record a { sockets = e.sockets; push = e.socket_fd })
    | err x e ↦ err x (record a { sockets = e.sockets; push = e.socket_fd })
    | hang w ↦ hang w
  ]

  abbrev pub on_watcher {ℓ} : {A : Type ℓ} → M (Endpoint N) A → M (Arrival C N) A
  on_watcher call a = elim (call (record { sockets = a.sockets; socket_fd = a.watcher })) [
    | ok x e ↦ ok x (record a { sockets = e.sockets; watcher = e.socket_fd })
    | err x e ↦ err x (record a { sockets = e.sockets; watcher = e.socket_fd })
    | hang w ↦ hang w
  ]

  unfoldable pub make_device : M (Arrival C N) (Unit {0})
  make_device = do
    push_port ← on_push (create_and_setup_socket N)
    on_command (send_text C PacketType.port 1 (to_string push_port))
    watcher_port ← on_watcher (create_and_setup_socket N)
    on_command (send_text C PacketType.port 1 (to_string watcher_port))
    on_push (accept_connection N)
    on_watcher (accept_connection N)
