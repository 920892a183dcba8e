-- ===== src/Tests/Servers.antt =====
-- The theorems on clients, devices and peers of a server at concrete inputs.
use so2_final.Base.{
  ℕ, ◌+◌, ◌≡◌, refl, List, map, length, ◌++◌, inl, inr, true, none, some, text_eq, [], ◌∷◌, codes,
  All, ok, err, no_network_manager, arith,
}
use so2_final.Network.Packet.{Packet, make_packet, number, data_chunk}
use so2_final.Network.Channel.Queue.{Queues, queue_channel, queue_channel-IsChannel}
use so2_final.Files.System.{FilePath}
use so2_final.Transfer.{Host}
use so2_final.Transfer.Sending.{end_packet}
use so2_final.Device.Text.{c_string, until_zero}
use so2_final.Device.Mailbox.{new_mailbox}
use so2_final.Device.Watcher.{client_files}
use so2_final.ClientManager.{Member, make_client_files}
use so2_final.Files.Manager.{make_file_manager}
use so2_final.ClientManager.Limit.{Reach, closed_gate, Reach-any}
use so2_final.ClientManager.Push.{notified}
use so2_final.Server.{leading, Client, Peer, new_client, client_exists, announcements, answer_peer}
use so2_final.Server.Clients.{IsDistinct}
use so2_final.Network.Sockets.{remove}
use so2_final.Network.Setup.{Endpoint, create_and_setup_socket, accept_connection}
use so2_final.Decimal.{to_string}
use so2_final.Server.Run.{Hub, accept_packet}
use so2_final.Server.Run.Announce.{IsGenerous, Sent, with_notices, accept_packet-announces}
use so2_final.ClientManager.Spread.{Herd, handle_new_push}
use so2_final.ClientManager.Spread.Reach.{AllGotFile, handle_new_push-spreads}
use so2_final.Server.Run.{run}
use so2_final.Server.Run.Registry.{IsHub}
use so2_final.Tests.Harbour.{Quay, harbour, calm}
use so2_final.Server.Run.Addresses.{run-unaddressed}
use so2_final.Server.Peers.Misread.{followed, announcements-misread}
use so2_final.Network.Packet.{client_connection}
use so2_final.Server.{connect_receiver}
use so2_final.Tests.Memory.{memory, disk}

Reach-any_example : Reach closed_gate (record { devices = 1 ∷ 2 ∷ 3 ∷ []; passed = [] })
Reach-any_example = Reach-any (1 ∷ 2 ∷ 3 ∷ [])

abbrev member : ℕ → Member
member a = record { address = a; mailbox = new_mailbox 0 }

abbrev held_member : ℕ → Member
held_member a = record { address = a; mailbox = record (new_mailbox 0) { locked = true } }

abbrev Machine : Type 0
Machine = Host queue_channel memory

abbrev f_path : FilePath
f_path = codes "sync_dir_ana/f"

abbrev pushed : Packet
pushed = record { kind = 2; seqn = 0; total_size = 11; size = 1; payload = some (codes "f") }

abbrev chunk : Packet
chunk = make_packet (number data_chunk) 0 (codes "new")

abbrev machine : Machine
machine = record {
  conn = record { inbox = pushed ∷ chunk ∷ end_packet 1 ∷ []; outbox = [] };
  files = disk f_path (codes "old");
}

abbrev ana : Client
ana = new_client leading (codes "ana")

alone : IsDistinct (ana ∷ [])
unfolding client_exists
alone = (refl, tt)

abbrev peer : Peer queue_channel harbour memory
peer = record {
  conn = record { inbox = []; outbox = [] };
  server = record { state = leading; ip = codes "10.0.0.1"; clients = ana ∷ [] };
  files = disk [] [];
  sockets = calm;
  descriptor = some 3;
  receivers = [];
}

abbrev asks_clients : Packet
asks_clients = record {
  kind = 6;
  seqn = 0;
  total_size = 13;
  size = 3;
  payload = some (codes "xxx");
}

announcements-misread_example :
    All
      (λ m.
        answer_peer queue_channel harbour memory (make_packet (number client_connection) 0 m) peer
        ≡ connect_receiver queue_channel harbour memory 0
            (followed queue_channel harbour memory (codes "CLIENT_CONNECTION") (disk [] []) peer))
      (announcements (codes "ben") (codes "4001" ∷ codes "4002" ∷ []))
unfolding client_exists text_eq make_client_files make_file_manager
announcements-misread_example =
    announcements-misread queue_channel harbour memory peer
      (client_files (codes "CLIENT_CONNECTION")) (disk [] []) (codes "ben")
      (codes "4001" ∷ codes "4002" ∷ []) (omega arith) refl refl

sets_up :
    (q : Quay)
    → (port fd : ℕ) × (q' : Quay) × (create_and_setup_socket harbour
          (record { sockets = q; socket_fd = none })
        ≡ ok port (record { sockets = q'; socket_fd = some fd }))
unfolding create_and_setup_socket
sets_up q = (
  4000 + q.counter,
  q.counter,
  record q { counter = q.counter + 1; fds = q.counter ∷ q.fds },
  refl,
)

accepts :
    (q : Quay) (fd : ℕ)
    → (e : Endpoint harbour) × (accept_connection harbour
          (record { sockets = q; socket_fd = some fd })
        ≡ ok tt e)
unfolding accept_connection
accepts q fd = (
  record {
    sockets = record q { counter = q.counter + 1; fds = remove fd (q.counter ∷ q.fds) };
    socket_fd = some q.counter;
  },
  refl,
)

harbour-IsGenerous : IsGenerous harbour
harbour-IsGenerous = record { sets_up = sets_up; accepts = accepts }

abbrev idle : Queues
idle = record { inbox = []; outbox = [] }

abbrev hub : Hub queue_channel harbour memory
hub = record {
  server = record { state = leading; ip = codes "10.0.0.1"; clients = [] };
  files = disk [] [];
  sockets = calm;
  peers = idle ∷ [];
  backups = [];
  handlers = [];
}

abbrev greeting : Packet
greeting = record { kind = 5; seqn = 1; total_size = 13; size = 3; payload = some (codes "ana") }

accept_packet-announces_example :
    (ports : List ℕ) × (h' : Hub queue_channel harbour memory) × (accept_packet queue_channel
        harbour memory idle greeting hub
      ≡ ok tt h')
    × (h'.server.clients ≡ [] ++ (new_client leading (codes "ana") ∷ []))
    × (h'.handlers ≡ [] ++ (codes "ana" ∷ []))
    × (length ports ≡ 1)
    × Sent queue_channel queue_channel-IsChannel harbour harbour-IsGenerous h'.peers (
        with_notices queue_channel queue_channel-IsChannel harbour harbour-IsGenerous
          (announcements (codes "ana") (map to_string ports))
          ([] ∷ []))
unfolding until_zero client_exists make_client_files make_file_manager
accept_packet-announces_example =
    accept_packet-announces queue_channel queue_channel-IsChannel harbour harbour-IsGenerous memory
      idle greeting (codes "ana") (codes "na") b'a' hub (client_files (codes "ana")) (disk [] [])
      ([] ∷ []) refl refl refl refl refl (omega arith) (([], refl, refl), tt)

abbrev herd : Herd queue_channel memory
herd = record {
  files = disk f_path (codes "new");
  devices = member 1 ∷ member 2 ∷ [];
  backups = idle ∷ [];
  told = [];
}

handle_new_push-spreads_example :
    (ds : List Queues) × (handle_new_push queue_channel memory
        (client_files (codes "ana"))
        pushed
        1
        herd
      ≡ ok tt
          (record herd { devices = member 1 ∷ notified 2 (codes "f") (member 2) ∷ []; told = ds }))
    × AllGotFile queue_channel queue_channel-IsChannel (codes "f") (codes "new") ([] ∷ []) ds
unfolding text_eq until_zero
handle_new_push-spreads_example =
    handle_new_push-spreads queue_channel queue_channel-IsChannel memory
      (client_files (codes "ana")) (codes "f") (codes "new") (omega arith) pushed (codes "f") 1 herd
      ([] ∷ []) refl refl refl refl (inl refl, (inr refl, tt)) (([], refl, refl), tt) refl

abbrev busy_hub : Hub queue_channel harbour memory
busy_hub = record {
  server = record { state = leading; ip = codes "10.0.0.1"; clients = ana ∷ [] };
  files = disk [] [];
  sockets = calm;
  peers = idle ∷ [];
  backups = [];
  handlers = codes "ana" ∷ [];
}

busy_hub-IsHub : IsHub queue_channel harbour memory busy_hub
unfolding client_exists text_eq
busy_hub-IsHub = record {
  distinct = alone;
  unaddressed = (refl, tt);
  delivered = ((ana, refl), tt);
  backed = tt;
}

abbrev arrives : List Queues
arrives = record { inbox = greeting ∷ []; outbox = [] } ∷ idle ∷ []

-- The hub when `run` has dealt with a known client's connection.
abbrev joined_hub : Hub queue_channel harbour memory
joined_hub = record busy_hub { handlers = codes "ana" ∷ codes "ana" ∷ [] }

run-unaddressed_example :
    answer_peer queue_channel harbour memory asks_clients peer ≡ err no_network_manager peer
unfolding run until_zero client_exists text_eq c_string
run-unaddressed_example =
    run-unaddressed queue_channel harbour memory
      (record { inbox = greeting ∷ []; outbox = [] } ∷ []) busy_hub joined_hub peer asks_clients
      (codes "xxx") ana [] busy_hub-IsHub refl refl refl refl refl
