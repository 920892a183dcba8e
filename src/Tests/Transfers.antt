-- ===== src/Tests/Transfers.antt =====
-- The theorems on files over a connection at concrete inputs.
use so2_final.Base.{
  ℕ, ◌<◌, ◌^◌, ◌≡◌, refl, some, text_eq, List, [], ◌∷◌, ◌++◌, codes, ok, err, Error, arith,
}
use so2_final.Network.Packet.{Packet, number, make_packet, data_chunk}
use so2_final.Network.Channel.Queue.{
  Queues, queue_channel, queue_channel-IsChannel, queue_channel-Closes,
}
use so2_final.Files.Manager.{FileManager}
use so2_final.Transfer.{Host, send_file_in_chunks, build_file}
use so2_final.Transfer.Sending.{IsChunking, contents, end_packet, send_file_in_chunks-sends}
use so2_final.Transfer.Receiving.{Receiving, build_file-runs_on}
use so2_final.Tests.Memory.{memory, memory-IsFileSystem, memory-IsWilling, disk}

abbrev dir : FileManager
dir = record { base_directory = codes "d" }

abbrev queues : List Packet → Queues
queues ps = record { inbox = ps; outbox = [] }

abbrev Machine : Type 0
Machine = Host queue_channel memory

abbrev machine : List Packet → Machine
machine ps = record { conn = queues ps; files = disk (codes "d/f") (codes "old") }

abbrev hello : Packet
hello = make_packet (number data_chunk) 0 (codes "hello")

abbrev Held : Machine → Machine → List Packet → List ℕ → Type 0
Held g h ps held =
    Receiving queue_channel queue_channel-IsChannel memory memory-IsFileSystem memory-IsWilling dir
      (codes "f") g.files h ps [] held

held : (ps : List Packet) → Held (machine ps) (machine ps) ps (codes "old")
unfolding text_eq
held ps = record { inbox = refl; outbox = refl; file = refl; others = λ q d. refl }

send_file_in_chunks-sends_example :
    (last : ℕ) × (sent : List Packet) × (c : Queues) × (send_file_in_chunks queue_channel memory dir
        2
        (codes "f")
        (machine [])
      ≡ ok tt (record (machine []) { conn = c }))
    × (last < 2 ^ 16)
    × IsChunking 0 sent
    × (contents sent ≡ codes "old")
    × (c.inbox ≡ [])
    × (c.outbox ≡ [] ++ (sent ++ (end_packet last ∷ [])))
unfolding text_eq
send_file_in_chunks-sends_example =
    send_file_in_chunks-sends queue_channel queue_channel-IsChannel memory dir 1 (codes "f")
      (codes "old") (machine []) [] [] (omega arith) refl refl refl

hello_chunks : IsChunking 0 (hello ∷ [])
unfolding make_packet
hello_chunks = (refl, omega arith, tt)

contents-hello : contents (hello ∷ []) ≡ codes "hello"
unfolding make_packet
contents-hello = refl

build_file-runs_on_example :
    let g = machine (hello ∷ end_packet 1 ∷ hello ∷ []) in
    (e : Error) × (h' : Machine) × (build_file queue_channel memory dir 4 (codes "f") g ≡ err e h')
    × Held g h' [] (codes "old" ++ contents (hello ∷ end_packet 1 ∷ hello ∷ []))
unfolding make_packet text_eq
build_file-runs_on_example =
    build_file-runs_on queue_channel queue_channel-IsChannel memory memory-IsFileSystem
      memory-IsWilling dir queue_channel-Closes 0 1 (codes "f")
      (machine (hello ∷ end_packet 1 ∷ hello ∷ [])) (hello ∷ []) (hello ∷ []) [] (codes "old")
      (refl, tt) (refl, tt) (held (hello ∷ end_packet 1 ∷ hello ∷ []))

abbrev announced : Packet
announced = record { kind = 2; seqn = 1; total_size = 11; size = 1; payload = some (codes "f") }
