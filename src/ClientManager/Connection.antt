-- ===== src/ClientManager/Connection.antt =====
-- `handle_new_connection` but for the device's threads, and `removeDevice`, with the descriptors.
pub mod Accounts
use so2_final.Base.{ℕ, some, List, [], ◌∷◌, ◌++◌, codes, if◌then◌else◌, M, ok, err, hang, ◌>>◌}
use so2_final.Network.Packet.{PacketType}
use so2_final.Network.Channel.{Channel, send_text}
use so2_final.Network.Sockets.{Sockets, remove}
use so2_final.Network.Setup.{Endpoint, close_connection}
use so2_final.Device.Arrival.{Arrival, on_command, make_device}
use so2_final.ClientManager.Limit.{is_full}

-- The connection and what its device makes of it, the registered devices, and the descriptor of
-- the connection.
pub record Door (C : Channel) (N : Sockets) : Type 0 where
  pub arrival : Arrival C N
  pub devices : List ℕ
  pub socket : ℕ

module _ (C : Channel) (N : Sockets) where
  abbrev pub on_arrival : M (Arrival C N) (Unit {0}) → M (Door C N) (Unit {0})
  on_arrival call d = elim (call d.arrival) [
    | ok u a ↦ ok tt (record d { arrival = a })
    | err x a ↦ err x (record d { arrival = a })
    | hang w ↦ hang w
  ]

  -- The state of the sockets behind a call of `closeConnection` on a manager of this descriptor.
  abbrev close_manager : ℕ → N.State → N.State
  close_manager fd s = (close_connection N (record { sockets = s; socket_fd = some fd })).sockets

  abbrev pub with_sockets : Door C N → N.State → Door C N
  with_sockets d s = record d { arrival = record (d.arrival) { sockets = s } }

  -- The packet for a device too many.
  refuse : M (Door C N) (Unit {0})
  refuse = do
    on_arrival
        (on_command C N (send_text C PacketType.error 0 (codes "Limite de dispositivos atingido")))
    λ d. ok tt (with_sockets d (close_manager d.socket d.arrival.sockets))

  -- The device is registered once its constructor is through.
  admit : ℕ → M (Door C N) (Unit {0})
  admit device = do
    on_arrival (make_device C N)
    λ d. ok tt (record d { devices = d.devices ++ (device ∷ []) })

  -- Up to the start of the device's threads. An exception is caught, and the connection closed.
  unfoldable pub handle_new_connection : ℕ → M (Door C N) (Unit {0})
  unfolding refuse admit
  handle_new_connection device d = elim ((if is_full d.devices then refuse else admit device) d) [
    | ok u d' ↦ ok tt d'
    | err x d' ↦ ok tt (with_sockets d' (N.close d'.arrival.sockets d'.socket))
    | hang w ↦ hang w
  ]

  -- The connections that `Device::stop` closes, in its order.
  unfoldable pub stop_connections : Door C N → Door C N
  stop_connections d =
      let s = close_manager d.socket d.arrival.sockets in
      let push = close_connection N (record { sockets = s; socket_fd = d.arrival.push }) in
      let watcher =
        close_connection N (record { sockets = push.sockets; socket_fd = d.arrival.watcher }) in
      record d {
        arrival = record (d.arrival) {
          sockets = watcher.sockets;
          push = push.socket_fd;
          watcher = watcher.socket_fd;
        };
      }

  -- `removeDevice`: the device is stopped, and erased from the list if it is there.
  unfoldable pub dismiss_device : ℕ → Door C N → Door C N
  unfolding stop_connections
  dismiss_device device d = record (stop_connections d) { devices = remove device d.devices }
