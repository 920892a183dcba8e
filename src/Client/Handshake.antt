-- ===== src/Client/Handshake.antt =====
-- The constructor of `Client`, on the connection of its `command_manager`, up to the start of the
-- threads. `log_assert` only logs.
pub mod Ports
use so2_final.Base.{ℕ, ◌==◌, if◌then◌else◌, List, M, ◌>>=◌, ◌>>◌, return, throw, server_refuses}
use so2_final.Network.Packet.{Packet, PacketType, number}
use so2_final.Network.Channel.{Channel, send_text}
use so2_final.Device.Text.{c_string}
use so2_final.Decimal.{Signed, stoi}

-- The number in a packet's payload.
port_in : {S : Type 0} → Packet → M S Signed
port_in p = do text ← c_string p.payload; stoi text

module _ (C : Channel) where
  -- `push_port` and `file_watcher_port`. The type of the second packet is not tested.
  unfoldable pub shake_hands : List ℕ → M C.Conn (Signed × Signed)
  unfolding port_in
  shake_hands client_name = do
    send_text C PacketType.client 1 client_name
    p ← C.receive
    if p.kind == number PacketType.error then throw server_refuses else (do
      push_port ← port_in p
      p2 ← C.receive
      file_watcher_port ← port_in p2
      return (push_port, file_watcher_port))
