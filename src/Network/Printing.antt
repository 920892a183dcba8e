-- ===== src/Network/Printing.antt =====
-- `NetworkManager::printPacket`, on the stream of the process.
use so2_final.Base.{ℕ, none, some, List, ◌++◌, codes, take}
use so2_final.Network.Packet.{Packet}
use so2_final.Decimal.{to_string}

-- What is written for a payload.
print_payload : Packet → List ℕ
print_payload p = elim p.payload [ none ↦ codes "(null)" | some bytes ↦ take p.size bytes ]

-- The stream behind the call.
pub print_packet : Packet → List ℕ → List ℕ
unfolding print_payload
print_packet p cout =
    cout
    ++ (codes "Packet Type: "
        ++ (to_string p.kind
            ++ (codes "\nSequence Number: "
                ++ (to_string p.seqn
                    ++ (codes "\nTotal Size: "
                        ++ (to_string p.total_size
                            ++ (codes "\nLength: "
                                ++ (to_string p.size
                                    ++ (codes "\nPayload: "
                                        ++ (print_payload p ++ codes "\n"))))))))))
