-- ===== src/Tests/Clients.antt =====
-- The theorems on clients and the set-up of their connections at concrete inputs.
use so2_final.Base.{◌≡◌, refl, ◌↔◌, true, none, some, [], ◌∷◌, codes, leb, if◌then◌else◌}
use so2_final.Network.Setup.{connect_to, connect_to_socket, close_any}
use so2_final.Network.Setup.Descriptors.{Connects, connect_to-Connects}
use so2_final.Network.Setup.Retries.{after, connect_to_socket-retries}
use so2_final.Client.Commands.{is_name, download, parse_command}
use so2_final.Client.Commands.RoundTrip.{line_of, parse_command_iff}
use so2_final.Client.Turns.{
  Turns, here, next, begin_receiving, receiving, watching, IsStalled, Reach-stalls,
}
use so2_final.Tests.Harbour.{Quay, harbour, harbour-IsSockets, calm}

abbrev rough : Quay
rough = record calm { refusals = 2 }

connect_to-Connects_example :
    Connects harbour harbour-IsSockets []
      (connect_to harbour (codes "10.0.0.1") 4000 (record { sockets = rough; socket_fd = none }))
connect_to-Connects_example =
    connect_to-Connects harbour harbour-IsSockets (codes "10.0.0.1") 4000 rough

abbrev launched : Quay
launched = record rough { counter = 6; fds = 5 ∷ [] }

connect_to_socket-retries_example : connect_to_socket harbour (codes "10.0.0.1") 4000 rough ≡ (
    if leb 2 150
    then (
      some 5,
      (harbour.connect
          (after harbour (some 5) (codes "10.0.0.1") 4000 2 launched)
          (some 5)
          (codes "10.0.0.1")
          4000).1,
    )
    else (
      none,
      close_any harbour (some 5) (after harbour (some 5) (codes "10.0.0.1") 4000 151 launched),
    ))
unfolding after
connect_to_socket-retries_example =
    connect_to_socket-retries harbour (codes "10.0.0.1") 4000 2 rough launched (some 5)
      (codes "10.0.0.1") refl refl (refl, (refl, tt)) refl

parse_command_iff_example :
    (parse_command (codes "download a.txt") ≡ download (codes "a.txt"))
    ↔ (codes "download a.txt" ≡ line_of (download (codes "a.txt")))
unfolding is_name
parse_command_iff_example =
    parse_command_iff (codes "download a.txt") (download (codes "a.txt")) refl (cc)

abbrev taken : Turns
taken = record { locked = true; file_thread = watching; push_thread = receiving 2 }

Reach-stalls_example : IsStalled 2 taken
Reach-stalls_example =
    Reach-stalls {t = taken} {u = taken} 2 (next here (begin_receiving 2 refl refl refl)) refl here
