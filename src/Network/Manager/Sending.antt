-- ===== src/Network/Manager/Sending.antt =====
-- What `sendPacket` puts on the connection, and what it refuses.
use so2_final.Base.{
  ℕ, ◌+◌, ◌%◌, ◌^◌, ◌≤◌, ◌<◌, ◌≡◌, refl, ◌⊎◌, false, some, List, ◌++◌, length, ok, err,
  socket_not_initialized, invalid_packet, arith,
}
use so2_final.Network.Packet.{
  Packet, header_size, max_packet_size, is_packet_valid, make_packet, make_packet-valid,
  IsWellFormed,
}
use so2_final.Network.Wire.{wire, serialize_packet-wire}
use so2_final.Network.Loops.{send_loop-sends}
use so2_final.Network.Manager.{
  Platform, IsPlatform, send_packet, connected, new_manager, transmit-ok,
}

-- The sizes that can be sent.
abbrev pub IsSendable : List ℕ → Type 0
IsSendable bytes = (1 ≤ length bytes) × (length bytes ≤ max_packet_size)

pub make_packet-IsWellFormed :
    (kind seqn : ℕ) (bytes : List ℕ)
    → kind < 2 ^ 16
    → seqn < 2 ^ 16
    → IsWellFormed (make_packet kind seqn bytes)
unfolding make_packet
make_packet-IsWellFormed kind seqn bytes k s = omega arith

make_packet_size :
    (kind seqn : ℕ) (bytes : List ℕ)
    → IsSendable bytes
    → let p = make_packet kind seqn bytes in (p.payload ≡ some bytes) × (length bytes ≡ p.size)
unfolding make_packet
make_packet_size kind seqn bytes fits = (refl, omega arith)

wire_size :
    (p : Packet) (bytes : List ℕ)
    → p.payload ≡ some bytes
    → length bytes ≡ p.size
    → length (wire p) ≤ header_size + p.size
wire_size p bytes e f = rw e (omega arith)

pub make_packet-invalid :
    (kind seqn : ℕ) (bytes : List ℕ)
    → (length bytes % 2 ^ 16 ≡ 0) ⊎ (max_packet_size < length bytes % 2 ^ 16)
    → is_packet_valid (make_packet kind seqn bytes) ≡ false
unfolding is_packet_valid make_packet
make_packet-invalid kind seqn bytes bad = ground arith

module _ (P : Platform) (sound : IsPlatform P) where
  open sound use {up, lawful, sized}

  -- On a reliable connection, `sendPacket` of a type and sequence number of 16 bits and a payload
  -- of 1 to 2048 bytes returns; exactly the packet's wire form is added to what was sent, and
  -- nothing is taken from what is to be received.
  pub send_packet-sends :
      (c : P.kernel.Conn) (name : List ℕ) (kind seqn : ℕ) (bytes : List ℕ)
      → kind < 2 ^ 16
      → seqn < 2 ^ 16
      → IsSendable bytes
      → (c' : P.kernel.Conn) × (send_packet P kind seqn bytes (connected P c name)
          ≡ ok tt (connected P c' name))
        × (up.outgoing c' ≡ up.outgoing c ++ wire (make_packet kind seqn bytes))
        × (up.incoming c' ≡ up.incoming c)
  unfolding send_packet
  send_packet-sends c name kind seqn bytes k s fits =
      let p = make_packet kind seqn bytes in
      let valid = make_packet-valid kind seqn bytes (omega arith) (omega arith) in
      let (e, f) = make_packet_size kind seqn bytes fits in
      let built =
        serialize_packet-wire P.order lawful p bytes (P.fresh (header_size + p.size))
          (connected P c name) (make_packet-IsWellFormed kind seqn bytes k s) e f (sized _) in
      let (c', sent, out, inc) =
        send_loop-sends P.kernel up (header_size + p.size) (wire p) c (wire_size p bytes e f) in
      (c', rw valid (transmit-ok P p name (wire p) built sent), out, inc)

  -- Without a socket nothing is sent.
  pub send_packet-closed :
      (name : List ℕ) (kind seqn : ℕ) (bytes : List ℕ)
      → send_packet P kind seqn bytes (new_manager P name)
        ≡ err socket_not_initialized (new_manager P name)
  unfolding send_packet new_manager
  send_packet-closed name kind seqn bytes = refl

  -- With an open socket, a payload whose length modulo 65536 is 0 or above 2048 is refused as an
  -- invalid packet, and the manager is as it was.
  pub send_packet-refuses :
      (c : P.kernel.Conn) (name : List ℕ) (kind seqn : ℕ) (bytes : List ℕ)
      → (length bytes % 2 ^ 16 ≡ 0) ⊎ (max_packet_size < length bytes % 2 ^ 16)
      → send_packet P kind seqn bytes (connected P c name) ≡ err invalid_packet (connected P c name)
  unfolding send_packet
  send_packet-refuses c name kind seqn bytes bad =
      let invalid = make_packet-invalid kind seqn bytes bad in rw invalid
