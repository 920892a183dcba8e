-- ===== src/Network/Wire.antt =====
-- `serializePacket`, `deserializeHeader` and `deserializePacket`. A buffer is the list of its
-- bytes, so its size is the list's length.
use so2_final.Base.{
  ◌>>=◌, >>=-ok, ◌∙◌, ℕ, suc, false, ◌+◌, ◌-◌, ◌≡◌, refl, Option, none, some, List, [], ◌∷◌, ◌++◌,
  ltb, if◌then◌else◌, length, take, drop, drop-drop, drop_all, take-length, append-nil, M, ok,
  return, throw, buffer_too_small, invalid_length, arith,
}
use so2_final.Network.Packet.{Packet, header_size, IsWellFormed}
use so2_final.Network.ByteOrder.{ByteOrder, IsByteOrder, big16, big32}

-- `memcpy(buffer + offset, bytes, length bytes)`
copy_into : List ℕ → ℕ → List ℕ → List ℕ
copy_into buffer offset bytes =
    take offset buffer ++ (bytes ++ drop (length bytes) (drop offset buffer))

-- `memcpy(&field, buffer + offset, n)`
abbrev pub slice : ℕ → ℕ → List ℕ → List ℕ
slice offset n buffer = take n (drop offset buffer)

copy_payload : Packet → List ℕ → List ℕ
unfolding copy_into
copy_payload p buffer = elim p.payload [
  | none ↦ buffer
  | some bytes ↦ if ltb 0 p.size then copy_into buffer 10 (take p.size bytes) else buffer
]

module _ (h : ByteOrder) where
  copy_header : Packet → List ℕ → List ℕ
  unfolding copy_into
  copy_header p buffer =
      let a = copy_into buffer 0 (h.store16 (h.htons p.kind)) in
      let b = copy_into a 2 (h.store16 (h.htons p.seqn)) in
      let c = copy_into b 4 (h.store32 (h.htonl p.total_size)) in
      copy_into c 8 (h.store16 (h.htons p.size))

  unfoldable pub serialize_packet {ℓ} : {S : Type ℓ} → Packet → List ℕ → M S (List ℕ)
  unfolding copy_header copy_payload
  serialize_packet p buffer =
      if ltb (length buffer) (header_size + p.size)
      then throw buffer_too_small
      else return (copy_payload p (copy_header p buffer))

  -- The payload is set by the caller.
  unfoldable pub deserialize_header : List ℕ → Packet
  deserialize_header buffer = record {
    kind = h.ntohs (h.load16 (slice 0 2 buffer));
    seqn = h.ntohs (h.load16 (slice 2 2 buffer));
    total_size = h.ntohl (h.load32 (slice 4 4 buffer));
    size = h.ntohs (h.load16 (slice 8 2 buffer));
    payload = none;
  }

  unfoldable pub deserialize_packet {ℓ} : {S : Type ℓ} → List ℕ → M S Packet
  deserialize_packet buffer =
      if ltb (length buffer) header_size
      then throw buffer_too_small
      else let p = deserialize_header buffer in
        if ltb (length buffer - header_size) p.size
        then throw invalid_length
        else return (record p { payload = some (slice 10 p.size buffer) })

-- The ten bytes of a header, in network order.
abbrev pub wire_header : Packet → List ℕ
wire_header p = big16 p.kind ++ (big16 p.seqn ++ (big32 p.total_size ++ big16 p.size))

abbrev pub payload_bytes : Option (List ℕ) → List ℕ
payload_bytes none = []
payload_bytes (some bytes) = bytes

-- A packet as the peer sees it.
abbrev pub wire : Packet → List ℕ
wire p = wire_header p ++ payload_bytes p.payload

module _ (h : ByteOrder) (lawful : IsByteOrder h) where
  copy_header_lem :
      (p : Packet) (buffer : List ℕ)
      → IsWellFormed p
      → copy_header h p buffer ≡ wire_header p ++ drop 10 buffer
  unfolding copy_header
  copy_header_lem p buffer v =
      rw
        (
          lawful.store16-htons p.kind v.kind_fits,
          lawful.store16-htons p.seqn v.seqn_fits,
          lawful.store32-htonl p.total_size v.total_size_fits,
          lawful.store16-htons p.size v.size_fits,
        )
        (rw (drop-drop 2 2 buffer, drop-drop 4 4 buffer, drop-drop 8 2 buffer))

  pub deserialize_header-wire :
      (p : Packet) (rest : List ℕ)
      → IsWellFormed p
      → deserialize_header h (wire_header p ++ rest) ≡ record p { payload = none }
  unfolding deserialize_header
  deserialize_header-wire p rest v =
      rw
        (
          lawful.ntohs-load16 p.kind v.kind_fits,
          lawful.ntohs-load16 p.seqn v.seqn_fits,
          lawful.ntohl-load32 p.total_size v.total_size_fits,
          lawful.ntohs-load16 p.size v.size_fits,
        )
        refl

  -- Behind the header the payload fills the buffer exactly.
  copy_payload_lem :
      (p : Packet) (bytes buffer : List ℕ)
      → p.payload ≡ some bytes
      → length bytes ≡ p.size
      → length buffer ≡ header_size + p.size
      → copy_payload p (wire_header p ++ drop 10 buffer) ≡ wire p
  unfolding copy_payload
  copy_payload_lem p [] buffer e m k = rw (e, ← m, drop_all 10 buffer (omega arith))
  copy_payload_lem p (b ∷ bytes) buffer e m k =
      rw
        (
          e,
          ← m,
          take-length bytes,
          drop-drop 10 (suc (length bytes)) buffer,
          drop_all (10 + suc (length bytes)) buffer (omega arith),
          append-nil bytes,
        )
        (ground arith)

  -- On a buffer of the right size, whatever it held before, the result is the wire form.
  pub serialize_packet-wire {ℓ} :
      {S : Type ℓ} (p : Packet) (bytes buffer : List ℕ) (s : S)
      → IsWellFormed p
      → p.payload ≡ some bytes
      → length bytes ≡ p.size
      → length buffer ≡ header_size + p.size
      → serialize_packet h p buffer s ≡ ok (wire p) s
  unfolding serialize_packet
  serialize_packet-wire p bytes buffer s v e m k =
      rw (copy_header_lem p buffer v, copy_payload_lem p bytes buffer e m k)
        (let enough : ltb (length buffer) (header_size + p.size) ≡ false = ground arith in
          rw enough)

  pub deserialize_packet-wire {ℓ} :
      {S : Type ℓ} (p : Packet) (bytes : List ℕ) (s : S)
      → IsWellFormed p
      → p.payload ≡ some bytes
      → length bytes ≡ p.size
      → deserialize_packet h (wire p) s ≡ ok p s
  unfolding deserialize_packet
  deserialize_packet-wire p bytes s v e m =
      rw (deserialize_header-wire p (payload_bytes p.payload) v)
        (rw (e, ← m) (ground (arith, take-length bytes)))

-- `serializePacket` followed by `deserializePacket` gives the packet back, whatever the byte
-- orders of the two hosts and the old content of the buffer, if the packet's fields have their
-- widths, its payload is not null and as long as its size says, and the buffer has the packet's
-- size.
pub deserialize_packet-serialize_packet {ℓ} :
    {S : Type ℓ} (h k : ByteOrder) (p : Packet) (bytes buffer : List ℕ) (s : S)
    → IsByteOrder h
    → IsByteOrder k
    → IsWellFormed p
    → p.payload ≡ some bytes
    → length bytes ≡ p.size
    → length buffer ≡ header_size + p.size
    → (serialize_packet h p buffer >>= deserialize_packet k) s ≡ ok p s
deserialize_packet-serialize_packet h k p bytes buffer s lh lk v e m n =
    >>=-ok (serialize_packet h p buffer) (deserialize_packet k) s
      (serialize_packet-wire h lh p bytes buffer s v e m n)
    ∙ deserialize_packet-wire k lk p bytes s v e m
