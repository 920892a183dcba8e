-- ===== src/Network/Manager/Receiving.antt =====
-- What `receivePacket` makes of the bytes on a connection.
use so2_final.Base.{
  endless, ℕ, suc, ◌-◌, subst, ◌<◌, ◌≡◌, refl, sym, ap, ◌∙◌, none, some, List, [], ◌∷◌, ◌++◌,
  length, ok, err, hang, false, return, Option, append-nil, >>=-ok, >>=-err, >>=-hang,
  closed_by_peer, arith, ltb, true,
}
use so2_final.Network.Packet.{Packet, header_size, IsWellFormed}
use so2_final.Network.Wire.{wire, wire_header, deserialize_header, deserialize_header-wire}
use so2_final.Network.Kernel.{IsClosed}
use so2_final.Network.Loops.{
  receive_header_loop, receive_payload_loop, receive_header_loop-receives,
  receive_payload_loop-receives, receive_payload_loop-hangs, receive_header_loop-closed,
}
use so2_final.Network.Manager.{
  Platform, IsPlatform, Manager, connected, on_socket, on_socket-ok, on_socket-err, on_socket-hang,
  receive_header, receive_payload, receive_packet,
}

receive_payload-none :
    (P : Platform) (p : Packet) (m : Manager P)
    → p.size ≡ 0
    → receive_payload P p m ≡ ok (record p { payload = none }) m
unfolding receive_payload
receive_payload-none P p m f = let no_payload : ltb 0 p.size ≡ false = ground arith in rw no_payload

restore :
    (p : Packet) {o : Option (List ℕ)}
    → p.payload ≡ o
    → ◌≡◌ {A = Packet} (record p { payload = o }) p
restore p e = rw (← e)

module _ (P : Platform) (sound : IsPlatform P) where
  open sound use {up, lawful}

  receive_payload-receives :
      (c : P.kernel.Conn) (name : List ℕ) (p : Packet) (b : ℕ) (bs rest : List ℕ)
      → p.size ≡ length (b ∷ bs)
      → up.incoming c ≡ (b ∷ bs) ++ rest
      → (c' : P.kernel.Conn) × (receive_payload P p (connected P c name)
          ≡ ok (record p { payload = some (b ∷ bs) }) (connected P c' name))
        × (up.incoming c' ≡ rest)
        × (up.outgoing c' ≡ up.outgoing c)
  unfolding receive_payload
  receive_payload-receives c name p b bs rest e i =
      let (c', r, inc, out) =
        receive_payload_loop-receives P.kernel up p.size p.size [] (b ∷ bs) rest c (omega arith)
          (sym e) i in
      let some_left : ltb 0 p.size ≡ true = ground arith in
      (
        c',
        rw some_left (
            >>=-ok (on_socket P (receive_payload_loop P.kernel p.size p.size []))
              (λ bytes. return (record p { payload = some bytes })) (connected P c name)
              (on_socket-ok P (receive_payload_loop P.kernel p.size p.size []) name r)),
        inc,
        out,
      )

  -- Behind the header the call goes on with the packet that the header describes.
  receive_packet-parts :
      (c c' : P.kernel.Conn) (name : List ℕ) (p : Packet)
      → IsWellFormed p
      → receive_header_loop P.kernel header_size header_size [] c ≡ ok (wire_header p) c'
      → receive_packet P (connected P c name)
        ≡ receive_payload P (record p { payload = none }) (connected P c' name)
  unfolding receive_packet
  receive_packet-parts c c' name p v r =
      >>=-ok (receive_header P) (λ header. receive_payload P (deserialize_header P.order header))
        (connected P c name)
        (on_socket-ok P (receive_header_loop P.kernel header_size header_size []) name r)
      ∙ ap (λ q. receive_payload P q (connected P c' name))
          (ap (deserialize_header P.order) (sym (append-nil (wire_header p)))
            ∙ deserialize_header-wire P.order lawful p [] v)

  -- On a reliable connection, a packet with fields of their widths and a payload of at least one
  -- byte, as long as the packet's size says, whose wire form is the front of the incoming bytes,
  -- is returned whole by `receivePacket`; the bytes behind it stay, and nothing is sent.
  pub receive_packet-receives :
      (c : P.kernel.Conn) (name : List ℕ) (p : Packet) (b : ℕ) (bs rest : List ℕ)
      → IsWellFormed p
      → p.payload ≡ some (b ∷ bs)
      → p.size ≡ length (b ∷ bs)
      → up.incoming c ≡ wire p ++ rest
      → (c' : P.kernel.Conn) × (receive_packet P (connected P c name) ≡ ok p (connected P c' name))
        × (up.incoming c' ≡ rest)
        × (up.outgoing c' ≡ up.outgoing c)
  unfolding receive_packet
  receive_packet-receives c name p b bs rest v e f i =
      let (c', r, inc, out) =
        receive_header_loop-receives P.kernel up header_size header_size [] (wire_header p)
          ((b ∷ bs) ++ rest) c (omega arith) refl (i ∙ rw e) in
      let (d, r', inc', out') =
        receive_payload-receives c' name (record p { payload = none }) b bs rest f inc in
      (
        d,
        receive_packet-parts c c' name p v r
            ∙ r'
            ∙ ap (λ t. ok t (connected P d name)) (restore p e),
        inc',
        out' ∙ out,
      )

  -- A packet with an empty payload, which `sendPacket` never sends, comes with a null pointer.
  pub receive_packet_empty :
      (c : P.kernel.Conn) (name : List ℕ) (p : Packet) (rest : List ℕ)
      → IsWellFormed p
      → p.payload ≡ none
      → p.size ≡ 0
      → up.incoming c ≡ wire p ++ rest
      → (c' : P.kernel.Conn) × (receive_packet P (connected P c name) ≡ ok p (connected P c' name))
        × (up.incoming c' ≡ rest)
        × (up.outgoing c' ≡ up.outgoing c)
  unfolding receive_packet
  receive_packet_empty c name p rest v e f i =
      let (c', r, inc, out) =
        receive_header_loop-receives P.kernel up header_size header_size [] (wire_header p) rest c
          (omega arith) refl (i ∙ rw e) in
      (
        c',
        receive_packet-parts c c' name p v r
            ∙ receive_payload-none P (record p { payload = none }) (connected P c' name) f
            ∙ ap (λ t. ok t (connected P c' name)) (restore p e),
        inc,
        out,
      )

receive_payload-hangs :
    (P : Platform) (c : P.kernel.Conn) (name : List ℕ) (p : Packet)
    → IsClosed P.kernel c
    → 0 < p.size
    → receive_payload P p (connected P c name) ≡ hang endless
unfolding receive_payload
receive_payload-hangs P c name p closed h =
    let some_left : ltb 0 p.size ≡ true = ground arith in
    let e : p.size ≡ suc (p.size - 1) = omega arith in
    let stuck : receive_payload_loop P.kernel p.size p.size [] c ≡ hang endless =
      subst (λ n. receive_payload_loop P.kernel p.size n [] c ≡ hang endless) (sym e)
        (receive_payload_loop-hangs P.kernel c closed p.size (p.size - 1) []) in
    rw some_left (
      >>=-hang (on_socket P (receive_payload_loop P.kernel p.size p.size []))
        (λ bytes. return (record p { payload = some bytes })) (connected P c name)
        (on_socket-hang P (receive_payload_loop P.kernel p.size p.size []) name stuck))

-- Once the peer has closed the connection and no bytes are left, `receivePacket` throws, but
-- `receivePayload` for a packet of positive size has not ended after as many rounds as the packet
-- has bytes.
pub receive_closed :
    (P : Platform) (c : P.kernel.Conn) (name : List ℕ) (p : Packet)
    → IsClosed P.kernel c
    → 0 < p.size
    → (receive_packet P (connected P c name) ≡ err closed_by_peer (connected P c name))
      × (receive_payload P p (connected P c name) ≡ hang endless)
unfolding receive_packet
receive_closed P c name p closed h = (
  >>=-err (receive_header P) (λ header. receive_payload P (deserialize_header P.order header))
      (connected P c name)
      (on_socket-err P (receive_header_loop P.kernel header_size header_size []) name
        (receive_header_loop-closed P.kernel c closed 9 9 [])),
  receive_payload-hangs P c name p closed h,
)
