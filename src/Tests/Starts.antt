-- ===== src/Tests/Starts.antt =====
-- A client and a backup that start, at concrete inputs.
use so2_final.Base.{ℕ, ◌≡◌, refl, Option, some, none, [], ◌∷◌, codes, ok, arith}
use so2_final.Network.Packet.{
  Packet, PacketType, number, make_packet, leader, who_is_leader, get_clients,
}
use so2_final.Network.Setup.{connect_to}
use so2_final.Server.{backing}
use so2_final.Server.Start.{create_main_socket}
use so2_final.Server.Start.Making.{Berth, make_backup}
use so2_final.Server.Start.Making.Asking.{make_backup-asks}
use so2_final.Server.Join.Rounds.{greeting, bare_question}
use so2_final.Network.Setup.Retries.{after}
use so2_final.Network.Channel.Queue.{Queues, queue_channel, queue_channel-IsChannel}
use so2_final.Decimal.{to_string}
use so2_final.Client.Handshake.Ports.{port_packet, positive}
use so2_final.Client.Shell.{sync_dir, current_dir}
use so2_final.Client.Start.{Process, make_client}
use so2_final.Client.Start.Retrying.{make_client-retries}
use so2_final.Tests.Harbour.{harbour, calm}
use so2_final.Tests.Memory.{memory, disk}

-- The server's side of the connection has sent two ports.
abbrev greeted : Option ℕ → Queues
greeted fd = record { inbox = port_packet 4001 ∷ port_packet 4002 ∷ []; outbox = [] }

-- The first two attempts to connect fail.
abbrev early : Process queue_channel harbour memory
early = record {
  sockets = record calm { refusals = 2 };
  files = disk (codes "sync_dir/f") (codes "new");
  conn = none;
}

make_client-retries_example :
    (c : Queues) × (make_client queue_channel harbour memory greeted
        (codes "ana")
        (codes "10.0.0.1")
        (to_string 4000)
        early
      ≡ ok
          (record {
            command_manager = c;
            push_port = positive 4001;
            file_watcher_port = positive 4002;
            sync_dir_file_manager = sync_dir;
            curr_directory_file_manager = current_dir;
          })
          (record early {
            sockets = record { counter = 6; fds = 5 ∷ []; refusals = 0 };
            conn = some c;
          }))
    × (c.inbox ≡ [])
    × (c.outbox ≡ make_packet (number PacketType.client) 1 (codes "ana") ∷ [])
unfolding after
make_client-retries_example =
    make_client-retries queue_channel queue_channel-IsChannel harbour memory greeted (codes "ana")
      (codes "10.0.0.1") 4000 2 4001 4002 5 (record { counter = 6; fds = 5 ∷ []; refusals = 2 })
      (codes "10.0.0.1") [] [] early (omega arith) (omega arith) (omega arith) (omega arith)
      (omega arith) (omega arith) refl refl (refl, (refl, tt)) refl refl refl refl refl

abbrev an_answer : Packet
an_answer = make_packet (number leader) 0 (codes "10.0.0.1")

-- The leader's side of the connection has answered twice.
abbrev answered : Option ℕ → Queues
answered fd = record { inbox = an_answer ∷ an_answer ∷ []; outbox = [] }

abbrev moored : Berth queue_channel harbour
moored = record { sockets = calm; main_socket_fd = none; leader_connection = none }

make_backup-asks_example :
    (c : Queues) × (make_backup queue_channel harbour answered backing 4001 0
        (codes "10.0.0.2")
        (codes "10.0.0.1")
        (positive 4000)
        moored
      ≡ ok (some (record { state = backing; ip = codes "10.0.0.2"; clients = [] })) (record {
        sockets = record { counter = 7; fds = 6 ∷ 5 ∷ []; refusals = 0 };
        main_socket_fd = some 5;
        leader_connection = some c;
      }))
    × (c.inbox ≡ [])
    × (c.outbox ≡ greeting ∷ bare_question who_is_leader ∷ bare_question get_clients ∷ [])
unfolding create_main_socket connect_to
make_backup-asks_example =
    make_backup-asks queue_channel queue_channel-IsChannel harbour answered backing 4001 0
      (codes "10.0.0.2") (codes "10.0.0.1") (positive 4000) moored 5
      (record { counter = 6; fds = 5 ∷ []; refusals = 0 })
      (record {
        sockets = record { counter = 7; fds = 6 ∷ 5 ∷ []; refusals = 0 };
        socket_fd = some 6;
      })
      an_answer an_answer [] [] refl refl refl refl
