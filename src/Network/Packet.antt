-- ===== src/Network/Packet.antt =====
-- The packet of Utils/NetworkManager.hpp, its type numbers and `isPacketValid`.
use so2_final.Base.{
  ℕ, ◌+◌, ◌%◌, ◌^◌, ◌≤◌, ◌<◌, ◌≡◌, Bool, true, false, ◌&&◌, ◌||◌, Option, none, some, List, ltb,
  ◌==◌, if◌then◌else◌, length, arith,
}

pub data PacketType : Type 0 where
  data_chunk delete write file port client get_clients clients peer who_is_leader leader :
      PacketType
  client_connection file_not_found file_found upload download list end_of_file error : PacketType

-- The enumerator's value.
abbrev pub number : PacketType → ℕ
number data_chunk = 0
number delete = 1
number write = 2
number file = 3
number port = 4
number client = 5
number get_clients = 6
number clients = 7
number peer = 8
number who_is_leader = 9
number leader = 10
number client_connection = 11
number file_not_found = 12
number file_found = 13
number upload = 14
number download = 15
number list = 16
number end_of_file = 17
number error = 18

abbrev pub max_packet_size : ℕ
max_packet_size = 2048

abbrev pub header_size : ℕ
header_size = 10

-- `payload` is `none` for a null pointer. The bytes are those that `length` counts; a received
-- payload has a zero byte behind them.
pub record Packet : Type 0 where
  pub kind : ℕ
  pub seqn : ℕ
  pub total_size : ℕ
  pub size : ℕ
  pub payload : Option (List ℕ)

abbrev is_some {ℓ} : {A : Type ℓ} → Option A → Bool
is_some none = false
is_some (some a) = true

unfoldable pub is_packet_valid : Packet → Bool
is_packet_valid p =
    if ltb p.total_size header_size || ltb max_packet_size p.size
    then false
    else if p.size == 0 && is_some p.payload
    then false
    else true

-- The packet that `sendPacket(type, seqn, payload)` fills in. `length` is a `uint16_t`, so the
-- payload's size wraps; `new char[0]` is not null.
unfoldable pub make_packet : ℕ → ℕ → List ℕ → Packet
make_packet kind seqn bytes = record {
  kind = kind;
  seqn = seqn;
  total_size = header_size + length bytes % 2 ^ 16;
  size = length bytes % 2 ^ 16;
  payload = some bytes;
}

-- The fields have the widths of the C++ struct, and the payload is as long as `length` says.
pub record IsWellFormed (p : Packet) : Type 0 where
  pub kind_fits : p.kind < 2 ^ 16
  pub seqn_fits : p.seqn < 2 ^ 16
  pub total_size_fits : p.total_size < 2 ^ 32
  pub size_fits : p.size < 2 ^ 16

-- Exactly the payloads of 1 to 2048 bytes, up to a multiple of 65536, pass the check.
pub make_packet-valid :
    (kind seqn : ℕ) (bytes : List ℕ)
    → 1 ≤ length bytes % 2 ^ 16
    → length bytes % 2 ^ 16 ≤ max_packet_size
    → is_packet_valid (make_packet kind seqn bytes) ≡ true
unfolding is_packet_valid make_packet
make_packet-valid kind seqn bytes h k = ground arith

pub make_packet-valid_only :
    (kind seqn : ℕ) (bytes : List ℕ)
    → is_packet_valid (make_packet kind seqn bytes) ≡ true
    → (1 ≤ length bytes % 2 ^ 16) × (length bytes % 2 ^ 16 ≤ max_packet_size)
unfolding is_packet_valid make_packet
make_packet-valid_only kind seqn bytes h = ground arith
