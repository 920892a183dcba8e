-- ===== src/Tests/Packets.antt =====
-- The theorems on packets, sockets, hashes and lists at concrete inputs.
use so2_final.Base.{
  endless, ℕ, ◌≡◌, refl, some, [], ◌∷◌, ◌++◌, codes, ok, err, hang, ◌>>=◌, closed_by_peer, arith,
}
use so2_final.Network.Packet.{Packet, make_packet}
use so2_final.Network.ByteOrder.{
  big_endian, little_endian, big_endian-IsByteOrder, little_endian-IsByteOrder,
}
use so2_final.Network.Wire.{
  wire, serialize_packet, deserialize_packet, deserialize_packet-serialize_packet,
}
use so2_final.Network.Manager.{connected, send_packet, receive_packet, receive_payload}
use so2_final.Network.Manager.Sending.{send_packet-sends}
use so2_final.Network.Manager.Receiving.{receive_packet-receives, receive_closed}
use so2_final.Network.Lists.{
  semicolon, semicolons, encode_list, decode_list, decode_list-encode_list_single,
}
use so2_final.Files.Hash.{fnv1a, fnv1a_reference, fnv1a-reference}
use so2_final.Tests.Wired.{Wires, host, host-IsPlatform, hung_up, hung_up-IsClosed, zeros}

abbrev note : Packet
note = record { kind = 2; seqn = 258; total_size = 12; size = 2; payload = some (7 ∷ 8 ∷ []) }

-- A connection on which that packet and one more byte stand.
abbrev noted : Wires
noted = record { ingoing = wire note ++ (9 ∷ []); outgoing = [] }

deserialize_packet-serialize_packet_example :
    ◌>>=◌ {S = ℕ} (serialize_packet little_endian note (zeros 12)) (deserialize_packet big_endian) 0
    ≡ ok note 0
deserialize_packet-serialize_packet_example =
    deserialize_packet-serialize_packet little_endian big_endian note (7 ∷ 8 ∷ []) (zeros 12) 0
      little_endian-IsByteOrder big_endian-IsByteOrder (omega arith) refl refl refl

send_packet-sends_example :
    (c' : Wires) × (send_packet host 1 7 (5 ∷ []) (connected host hung_up [])
      ≡ ok tt (connected host c' []))
    × (c'.outgoing ≡ [] ++ wire (make_packet 1 7 (5 ∷ [])))
    × (c'.ingoing ≡ [])
send_packet-sends_example =
    send_packet-sends host host-IsPlatform hung_up [] 1 7 (5 ∷ []) (omega arith) (omega arith)
      (omega arith)

receive_packet-receives_example :
    (c' : Wires) × (receive_packet host (connected host noted []) ≡ ok note (connected host c' []))
    × (c'.ingoing ≡ 9 ∷ [])
    × (c'.outgoing ≡ [])
receive_packet-receives_example =
    receive_packet-receives host host-IsPlatform noted [] note 7 (8 ∷ []) (9 ∷ []) (omega arith)
      refl refl refl

receive_closed_example :
    (receive_packet host (connected host hung_up [])
      ≡ err closed_by_peer (connected host hung_up []))
    × (receive_payload host note (connected host hung_up []) ≡ hang endless)
receive_closed_example = receive_closed host hung_up [] note hung_up-IsClosed (omega arith)

decode_list-encode_list_single_example :
    decode_list (encode_list (codes "ab" ∷ [])) ≡ (codes "ab" ++ (semicolon ∷ [])) ∷ []
unfolding semicolons
decode_list-encode_list_single_example = decode_list-encode_list_single (codes "ab") refl

fnv1a-reference_example : fnv1a (codes "abc") ≡ fnv1a_reference 14695981039346656037 (codes "abc")
fnv1a-reference_example = fnv1a-reference (codes "abc")

-- The published value of FNV-1a at "a".
fnv1a_a : fnv1a (codes "a") ≡ 0xaf63dc4c8601ec8c
unfolding fnv1a
fnv1a_a = refl
