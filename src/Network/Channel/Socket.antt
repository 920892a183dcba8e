-- ===== src/Network/Channel/Socket.antt =====
-- `NetworkManager` over a reliable connection is such a channel.
use so2_final.Base.{
  ℕ, ◌^◌, ◌<◌, ◌≡◌, refl, sym, ap, ◌∙◌, Option, none, some, List, [], ◌∷◌, ◌++◌, length, All,
  append_assoc, append-nil, ok, err, invalid_packet, arith,
}
use so2_final.Network.Packet.{Packet, IsWellFormed, make_packet}
use so2_final.Network.Wire.{wire}
use so2_final.Network.Manager.{
  Platform, IsPlatform, Manager, connected, send_packet, receive_packet,
}
use so2_final.Network.Manager.Sending.{
  send_packet-sends, send_packet-refuses, make_packet-IsWellFormed,
}
use so2_final.Network.Manager.Receiving.{receive_packet-receives}
use so2_final.Network.Channel.{Channel, IsChannel, IsSendable, IsUnsendable}

-- A packet with a payload that its size describes.
pub record Carries (p : Packet) : Type 0 where
  pub formed : IsWellFormed p
  pub first : ℕ
  pub others : List ℕ
  pub carried : p.payload ≡ some (first ∷ others)
  pub measured : p.size ≡ length {A = ℕ} (first ∷ others)

abbrev pub wires : List Packet → List ℕ
wires [] = []
wires (p ∷ ps) = wire p ++ wires ps

wires-append : (ps qs : List Packet) → wires (ps ++ qs) ≡ wires ps ++ wires qs
wires-append [] qs = refl
wires-append (p ∷ ps) qs =
    ap (◌++◌ (wire p)) (wires-append ps qs) ∙ sym (append_assoc (wire p) (wires ps) (wires qs))

pub make_packet-Carries :
    (kind seqn : ℕ) (bytes : List ℕ)
    → kind < 2 ^ 16
    → seqn < 2 ^ 16
    → IsSendable bytes
    → Carries (make_packet kind seqn bytes)
unfolding make_packet
make_packet-Carries kind seqn [] k s h = absurd (omega arith)
make_packet-Carries kind seqn (b ∷ bs) k s h = record {
  formed = make_packet-IsWellFormed kind seqn (b ∷ bs) k s;
  first = b;
  others = bs;
  carried = refl;
  measured = omega arith;
}

abbrev pub socket_channel : Platform → Channel
socket_channel P = record { Conn = Manager P; send = send_packet P; receive = receive_packet P }

module _ (P : Platform) (sound : IsPlatform P) where
  open sound use {up}

  abbrev pub Incoming : Option P.kernel.Conn → List Packet → Type 0
  Incoming none ps = ⊥
  Incoming (some c) ps = (up.incoming c ≡ wires ps) × All Carries ps

  abbrev pub Outgoing : Option P.kernel.Conn → List Packet → Type 0
  Outgoing none qs = ⊥
  Outgoing (some c) qs = up.outgoing c ≡ wires qs

  pub receive-next :
      (s : Option P.kernel.Conn) (name : List ℕ) (p : Packet) (ps qs : List Packet)
      → Incoming s (p ∷ ps)
      → Outgoing s qs
      → (m : Manager P) × (receive_packet P (record { socket = s; name = name }) ≡ ok p m)
        × Incoming m.socket ps
        × Outgoing m.socket qs
  receive-next none name p ps qs i o = absurd i
  receive-next (some c) name p ps qs i o =
      let h = i.1.0 in
      let (c', e, inc, out) =
        receive_packet-receives P sound c name p h.first h.others (wires ps) h.formed h.carried
          h.measured i.0 in
      (connected P c' name, e, (inc, i.1.1), out ∙ o)

  pub send-sendable :
      (s : Option P.kernel.Conn) (name : List ℕ) (kind seqn : ℕ) (bytes : List ℕ)
      (ps qs : List Packet)
      → kind < 2 ^ 16
      → seqn < 2 ^ 16
      → IsSendable bytes
      → Incoming s ps
      → Outgoing s qs
      → (m : Manager P) × (send_packet P kind seqn bytes (record { socket = s; name = name })
          ≡ ok tt m)
        × Incoming m.socket ps
        × Outgoing m.socket (qs ++ (make_packet kind seqn bytes ∷ []))
  send-sendable none name kind seqn bytes ps qs k s fits i o = absurd i
  send-sendable (some c) name kind seqn bytes ps qs k s fits i o =
      let (c', e, out, inc) = send_packet-sends P sound c name kind seqn bytes k s fits in
      let p = make_packet kind seqn bytes in
      let last =
        ap (◌++◌ (wires qs)) (sym (append-nil (wire p))) ∙ sym (wires-append qs (p ∷ [])) in
      (connected P c' name, e, (inc ∙ i.0, i.1), out ∙ ap (λ t. t ++ wire p) o ∙ last)

  pub send-unsendable :
      (s : Option P.kernel.Conn) (name : List ℕ) (kind seqn : ℕ) (bytes : List ℕ) (ps : List Packet)
      → IsUnsendable bytes
      → Incoming s ps
      → send_packet P kind seqn bytes (record { socket = s; name = name })
        ≡ err invalid_packet (record { socket = s; name = name })
  send-unsendable none name kind seqn bytes ps bad i = absurd i
  send-unsendable (some c) name kind seqn bytes ps bad i =
      send_packet-refuses P sound c name kind seqn bytes bad

  -- The byte loops, the header's layout and the check of a packet implement the channel: what is
  -- sent is on the wire in order, and packets on the wire are read whole and in order, however
  -- the kernel cuts the stream.
  abbrev pub socket_channel-IsChannel : IsChannel (socket_channel P)
  socket_channel-IsChannel = record {
    Inbox = λ m ps. Incoming m.socket ps;
    Outbox = λ m qs. Outgoing m.socket qs;
    receive-next = λ m. receive-next m.socket m.name;
    send-sendable = λ m. send-sendable m.socket m.name;
    send-unsendable = λ m. send-unsendable m.socket m.name;
  }
