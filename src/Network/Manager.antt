-- ===== src/Network/Manager.antt =====
-- The methods of `NetworkManager` that send and receive a packet.
pub mod Sending
pub mod Receiving
use so2_final.Base.{
  endless, ℕ, ◌+◌, ◌≡◌, Bool, true, false, Option, none, some, List, [], ◌∷◌, length, codes, ltb,
  if◌then◌else◌, M, Result, Error, ok, err, hang, >>=-ok, ◌∙◌, ◌>>=◌, ◌>>◌, return, throw,
  invalid_socket, socket_not_initialized, invalid_packet, arith,
}
use so2_final.Network.Packet.{Packet, header_size, is_packet_valid, make_packet}
use so2_final.Network.ByteOrder.{ByteOrder, IsByteOrder}
use so2_final.Network.Wire.{serialize_packet, deserialize_header}
use so2_final.Network.Kernel.{Kernel, IsReliable}
use so2_final.Network.Loops.{send_loop, receive_header_loop, receive_payload_loop}

-- What a process runs on. `fresh n` is what a new array of `n` bytes happens to hold.
pub record Platform : Type 1 where
  pub order : ByteOrder
  pub kernel : Kernel
  pub fresh : ℕ → List ℕ

pub record IsPlatform (P : Platform) : Type 0 where
  pub lawful : IsByteOrder P.order
  pub up : IsReliable P.kernel
  pub sized : (n : ℕ) → length (P.fresh n) ≡ n

-- `socket` is `none` where `socket_fd` is -1.
pub record Manager (P : Platform) : Type 0 where
  pub socket : Option P.kernel.Conn
  pub name : List ℕ

module _ (P : Platform) where
  -- A manager whose socket is open.
  abbrev pub connected : P.kernel.Conn → List ℕ → Manager P
  connected c name = record { socket = some c; name = name }

  -- The two constructors that take no address.
  unfoldable pub new_manager : List ℕ → Manager P
  new_manager name = record { socket = none; name = name }

  unfoldable pub adopt_socket {ℓ} : {S : Type ℓ} → Option P.kernel.Conn → List ℕ → M S (Manager P)
  adopt_socket none name = throw invalid_socket
  adopt_socket (some c) name = return (record { socket = some c; name = name })

  unfoldable pub check_socket_initialized : M (Manager P) (Unit {0})
  check_socket_initialized m = elim m.socket [
    | none ↦ err socket_not_initialized m
    | some c ↦ ok tt m
  ]

  -- A call on the socket, if there is one.
  abbrev pub on_socket {ℓ} : {A : Type ℓ} → M P.kernel.Conn A → M (Manager P) A
  on_socket call m = elim m.socket [
    | none ↦ err socket_not_initialized m
    | some c ↦ elim (call c) [
      | ok a c' ↦ ok a (record m { socket = some c' })
      | err e c' ↦ err e (record m { socket = some c' })
      | hang w ↦ hang w
    ]
  ]

  -- From the packet's check to the end of `sendPacket(packet *p)`.
  pub transmit : Packet → M (Manager P) (Unit {0})
  transmit p = do
    buffer ← serialize_packet P.order p (P.fresh (header_size + p.size))
    on_socket (send_loop P.kernel (header_size + p.size) buffer)

  -- `sendPacket(packet *p)`
  unfoldable pub send_whole : Packet → M (Manager P) (Unit {0})
  unfolding check_socket_initialized
  send_whole p = do
    check_socket_initialized
    if is_packet_valid p then transmit p else throw invalid_packet

  unfoldable pub send_packet : ℕ → ℕ → List ℕ → M (Manager P) (Unit {0})
  unfolding send_whole
  send_packet kind seqn bytes = do
    check_socket_initialized
    send_whole (make_packet kind seqn bytes)

  unfoldable pub receive_header : M (Manager P) (List ℕ)
  receive_header = on_socket (receive_header_loop P.kernel header_size header_size [])

  unfoldable pub receive_payload : Packet → M (Manager P) Packet
  receive_payload p =
      if ltb 0 p.size
      then (do
        bytes ← on_socket (receive_payload_loop P.kernel p.size p.size [])
        return (record p { payload = some bytes }))
      else return (record p { payload = none })

  unfoldable pub receive_packet : M (Manager P) Packet
  unfolding check_socket_initialized receive_header receive_payload
  receive_packet = do
    check_socket_initialized
    header ← receive_header
    receive_payload (deserialize_header P.order header)

  -- `closeSocket`, and `closeConnection` but for the call of `shutdown`.
  unfoldable pub close_socket : Manager P → Manager P
  close_socket m = record m { socket = none }

module _ (P : Platform) where
  pub on_socket-ok {ℓ} :
      {A : Type ℓ} (call : M P.kernel.Conn A) (name : List ℕ) {c c' : P.kernel.Conn} {a : A}
      → call c ≡ ok a c'
      → on_socket P call (connected P c name) ≡ ok a (connected P c' name)
  on_socket-ok call name e = rw (e, on_socket)

  pub on_socket-err {ℓ} :
      {A : Type ℓ} (call : M P.kernel.Conn A) (name : List ℕ) {c c' : P.kernel.Conn} {e : Error}
      → call c ≡ err e c'
      → on_socket P call (connected P c name) ≡ err e (connected P c' name)
  on_socket-err call name e = rw (e, on_socket)

  pub on_socket-hang {ℓ} :
      {A : Type ℓ} (call : M P.kernel.Conn A) (name : List ℕ) {c : P.kernel.Conn}
      → call c ≡ hang endless
      → on_socket P call (connected P c name) ≡ hang endless
  on_socket-hang call name e = rw (e, on_socket)

  pub transmit-ok :
      (p : Packet) (name buffer : List ℕ) {c c' : P.kernel.Conn}
      → serialize_packet P.order p (P.fresh (header_size + p.size)) (connected P c name)
        ≡ ok buffer (connected P c name)
      → send_loop P.kernel (header_size + p.size) buffer c ≡ ok tt c'
      → transmit P p (connected P c name) ≡ ok tt (connected P c' name)
  unfolding transmit
  transmit-ok p name buffer built sent =
      >>=-ok (serialize_packet P.order p (P.fresh (header_size + p.size)))
        (λ b. on_socket P (send_loop P.kernel (header_size + p.size) b)) _ built
      ∙ on_socket-ok (send_loop P.kernel (header_size + p.size) buffer) name sent
