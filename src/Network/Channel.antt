-- ===== src/Network/Channel.antt =====
-- What the rest of the program uses of a `NetworkManager`: packets go out and come in, in order.
pub mod Socket
pub mod Queue
use so2_final.Base.{
  ℕ, ◌%◌, ◌^◌, ◌≤◌, ◌<◌, ◌≡◌, ◌⊎◌, List, [], ◌∷◌, ◌++◌, length, codes, M, Error, ok, err,
  invalid_packet,
}
use so2_final.Network.Packet.{Packet, PacketType, number, make_packet, max_packet_size}

pub record Channel : Type 1 where
  pub Conn : Type 0
  pub send : ℕ → ℕ → List ℕ → M Conn (Unit {0})
  pub receive : M Conn Packet

abbrev pub send_text : (C : Channel) → PacketType → ℕ → List ℕ → M C.Conn (Unit {0})
send_text C t seqn text = C.send (number t) seqn text

-- `sendPacket(type, seqn)`
abbrev pub send_bare : (C : Channel) → PacketType → ℕ → M C.Conn (Unit {0})
send_bare C t seqn = send_text C t seqn (codes "xxx")

-- The sizes that a packet can carry, and those that it cannot.
abbrev pub IsSendable : List ℕ → Type 0
IsSendable bytes = (1 ≤ length bytes) × (length bytes ≤ max_packet_size)

abbrev pub IsUnsendable : List ℕ → Type 0
IsUnsendable bytes = (length bytes % 2 ^ 16 ≡ 0) ⊎ (max_packet_size < length bytes % 2 ^ 16)

-- `Inbox c ps`: the packets `ps` are still to be read. `Outbox c qs`: `qs` have been sent.
pub record IsChannel (C : Channel) : Type 1 where
  pub Inbox : C.Conn → List Packet → Type 0
  pub Outbox : C.Conn → List Packet → Type 0
  pub receive-next :
      (c : C.Conn) (p : Packet) (ps qs : List Packet)
      → Inbox c (p ∷ ps)
      → Outbox c qs
      → (c' : C.Conn) × (C.receive c ≡ ok p c') × Inbox c' ps × Outbox c' qs
  pub send-sendable :
      (c : C.Conn) (kind seqn : ℕ) (bytes : List ℕ) (ps qs : List Packet)
      → kind < 2 ^ 16
      → seqn < 2 ^ 16
      → IsSendable bytes
      → Inbox c ps
      → Outbox c qs
      → (c' : C.Conn) × (C.send kind seqn bytes c ≡ ok tt c')
        × Inbox c' ps
        × Outbox c' (qs ++ (make_packet kind seqn bytes ∷ []))
  pub send-unsendable :
      (c : C.Conn) (kind seqn : ℕ) (bytes : List ℕ) (ps : List Packet)
      → IsUnsendable bytes
      → Inbox c ps
      → C.send kind seqn bytes c ≡ err invalid_packet c

-- The peer closes behind its last packet.
abbrev pub Closes : (C : Channel) → IsChannel C → Type 0
Closes C ch =
    (c : C.Conn) (qs : List Packet)
    → ch.Inbox c []
    → ch.Outbox c qs
    → (e : Error) × (c' : C.Conn) × (C.receive c ≡ err e c') × ch.Inbox c' [] × ch.Outbox c' qs
