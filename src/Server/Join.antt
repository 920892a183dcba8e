-- ===== src/Server/Join.antt =====
-- The constructor of a backup `Server`, on its connection to the leader, up to the start of the
-- thread that serves the leader.
pub mod Rounds
pub mod Leader
use so2_final.Base.{codes, M, ◌>>=◌, ◌>>◌, return}
use so2_final.Network.Packet.{Packet, peer, who_is_leader, get_clients}
use so2_final.Network.Channel.{Channel, send_text, send_bare}

-- The result is the two packets, which are printed only.
unfoldable pub join_leader : (C : Channel) → M C.Conn (Packet × Packet)
join_leader C = do
  send_text C peer 1 (codes "0")
  send_bare C who_is_leader 0
  pkt ← C.receive
  send_bare C get_clients 0
  pkt2 ← C.receive
  return (pkt, pkt2)
