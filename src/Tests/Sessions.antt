-- ===== src/Tests/Sessions.antt =====
-- Sessions over sockets between hosts of different byte orders.
use so2_final.Base.{ℕ, ◌∷◌, ◌++◌, text_eq, ◌≡◌, refl, some, true, List, [], codes, ok, arith}
use so2_final.Network.Packet.{Packet}
use so2_final.Network.ByteOrder.{big_endian, big_endian-IsByteOrder}
use so2_final.Network.Manager.{Platform, IsPlatform, Manager, connected}
use so2_final.Network.Channel.Socket.{socket_channel}
use so2_final.Files.Manager.{FileManager}
use so2_final.Transfer.{Host}
use so2_final.Device.Text.{first_word, until_zero}
use so2_final.Device.Commands.{answer}
use so2_final.Client.{download_file}
use so2_final.Network.Setup.{Endpoint, create_and_setup_socket, accept_connection}
use so2_final.Device.Arrival.{make_device}
use so2_final.Client.Shell.{Copier, list_remote}
use so2_final.Client.Shell.Listing.{listing-arrives}
use so2_final.Client.Events.{Event}
use so2_final.Client.Handshake.{shake_hands}
use so2_final.Client.Handshake.Ports.{positive, arriving, ports-agree}
use so2_final.Client.Session.{download-delivers}
use so2_final.Tests.Harbour.{Quay, harbour, calm}
use so2_final.Tests.Memory.{memory, memory-IsFileSystem, memory-IsWilling, disk}
use so2_final.Tests.Wired.{Wires, host, host-IsPlatform, hung_up}

abbrev pub other_host : Platform
other_host = record host { order = big_endian }

abbrev pub other_host-IsPlatform : IsPlatform other_host
other_host-IsPlatform = record {
  lawful = big_endian-IsByteOrder;
  up = host-IsPlatform.up;
  sized = host-IsPlatform.sized;
}

abbrev pub served : FileManager
served = record { base_directory = codes "d" }

abbrev pub local : FileManager
local = record { base_directory = codes "." }

abbrev pub request : Packet
request = record { kind = 15; seqn = 1; total_size = 11; size = 1; payload = some (codes "f") }

abbrev pub wired : List ℕ → Wires
wired bytes = record { ingoing = bytes; outgoing = [] }

download-delivers_example :
    (m : Manager host) × (c : Wires) × (fuel : ℕ) × (h : Host (socket_channel other_host) memory)
    × (answer
          (socket_channel host)
          memory
          served
          (λ s. [])
          request
          (record { conn = connected host hung_up []; files = disk (codes "d/f") (codes "new") })
        ≡ ok tt (record { conn = m; files = disk (codes "d/f") (codes "new") }))
    × (m.socket ≡ some c)
    × (download_file (socket_channel other_host) memory local fuel (codes "f") (record {
      conn = connected other_host (wired c.outgoing) [];
      files = disk (codes "./f") (codes "old");
    })
        ≡ ok true h)
    × (memory.read h.files (codes "./f") ≡ some (codes "new"))
unfolding text_eq first_word until_zero
download-delivers_example =
    download-delivers host other_host host-IsPlatform other_host-IsPlatform memory memory
      memory-IsFileSystem memory-IsWilling (λ s. []) served local request (codes "f") (codes "new")
      hung_up [] (disk (codes "d/f") (codes "new")) wired [] (disk (codes "./f") (codes "old")) refl
      refl refl (omega arith) refl refl refl (λ bs. refl) (λ bs. refl)

abbrev copier : Copier memory
copier = record {
  create_directories = λ s p. some s;
  copy = λ s p q. some s;
  list_files = λ s. codes "f";
}

abbrev lists : Packet
lists = record { kind = 16; seqn = 1; total_size = 13; size = 3; payload = some (codes "xxx") }

listing-arrives_example :
    (m : Manager host) × (c : Wires) × (d : Manager other_host) × (answer
        (socket_channel host)
        memory
        served
        (λ s. codes "f (x)")
        lists
        (record { conn = connected host hung_up []; files = disk (codes "d/f") (codes "new") })
      ≡ ok tt (record { conn = m; files = disk (codes "d/f") (codes "new") }))
    × (m.socket ≡ some c)
    × (list_remote (socket_channel other_host) memory copier 2 (record {
      host = record {
        conn = connected other_host (wired c.outgoing) [];
        files = disk (codes "./f") (codes "old");
      };
      printed = [];
    })
        ≡ ok tt (record {
          host = record { conn = d; files = disk (codes "./f") (codes "old") };
          printed = [] ++ ((codes "f (x)" ++ codes "\n") ∷ []);
        }))
listing-arrives_example =
    listing-arrives host other_host host-IsPlatform other_host-IsPlatform memory memory copier
      (λ s. codes "f (x)") served lists (codes "xxx") hung_up [] (disk (codes "d/f") (codes "new"))
      wired [] (disk (codes "./f") (codes "old")) [] refl refl (omega arith) refl refl (λ bs. refl)
      (λ bs. refl)

abbrev pub removed : Event
removed = record { mask = 0x200; len = 16; name = codes "f" }

abbrev quay : ℕ → List ℕ → Quay
quay counter fds = record { counter = counter; fds = fds; refusals = 0 }

abbrev endpoint : ℕ → List ℕ → ℕ → Endpoint harbour
endpoint counter fds fd = record { sockets = quay counter fds; socket_fd = some fd }

ports-agree_example :
    (d : Manager host) × (c : Wires) × (k : Manager other_host) × (make_device
        (socket_channel host)
        harbour
        (arriving (socket_channel host) harbour (connected host hung_up []) calm)
      ≡ ok tt (record { conn = d; sockets = quay 9 (8 ∷ 7 ∷ []); push = some 7; watcher = some 8 }))
    × (d.socket ≡ some c)
    × (shake_hands
          (socket_channel other_host)
          (codes "ana")
          (connected other_host (wired c.outgoing) [])
        ≡ ok (positive 4005, positive 4006) k)
unfolding create_and_setup_socket accept_connection
ports-agree_example =
    ports-agree host other_host host-IsPlatform other_host-IsPlatform harbour hung_up [] calm 4005
      4006 (endpoint 6 (5 ∷ []) 5) (endpoint 7 (6 ∷ 5 ∷ []) 6) (endpoint 8 (7 ∷ 6 ∷ []) 7)
      (endpoint 9 (8 ∷ 7 ∷ []) 8) wired [] (codes "ana") refl refl refl refl (omega arith)
      (omega arith) (omega arith) refl refl (λ bs. refl) (λ bs. refl)
