-- ===== src/Tests/Peers.antt =====
-- Changes of files and joining backups over sockets between hosts of different byte orders.
use so2_final.Base.{
  ℕ, none, false, Option, Error, err, ap, length, length-append, closed_by_peer, ◌∷◌, ◌++◌, text_eq,
  ◌≡◌, refl, some, List, [], codes, ok, arith,
}
use so2_final.Network.Packet.{Packet}
use so2_final.Network.Manager.{Manager, connected}
use so2_final.Network.Channel.Socket.{socket_channel}
use so2_final.Transfer.{Host}
use so2_final.Device.Text.{until_zero}
use so2_final.Files.System.{FilePath}
use so2_final.Device.Watcher.{watch_round}
use so2_final.Client.Events.{Event, has, handle_event}
use so2_final.Network.Packet.{write, number}
use so2_final.ClientManager.{push_to_backup, take_push}
use so2_final.ClientManager.Spread.Replica.{push_to_backup-replicates}
use so2_final.Server.{peer_rounds}
use so2_final.Server.Run.{Hub, serve_connection}
use so2_final.Server.Join.{join_leader}
use so2_final.Server.Join.Rounds.{beside, lone, leader_packet, clients_packet}
use so2_final.Server.Join.Leader.{join_leader-joins}
use so2_final.Network.Kernel.{IsClosed}
use so2_final.Network.Manager.Receiving.{receive_closed}
use so2_final.Network.Channel.{Closes}
use so2_final.Network.Channel.Socket.{Incoming, Outgoing, socket_channel-IsChannel}
use so2_final.Network.Manager.{receive_packet}
use so2_final.Client.Events.Change.{IsWithout, change-lost}
use so2_final.Tests.Harbour.{harbour, calm}
use so2_final.Tests.Memory.{memory, memory-IsFileSystem, memory-IsWilling, disk, same}
use so2_final.Tests.Wired.{read_byte, Wires, host, host-IsPlatform, hung_up}
use so2_final.Tests.Sessions.{other_host, other_host-IsPlatform, served, local, request, wired}

push_to_backup-replicates_example :
    let g = disk (codes "f") (codes "old") in
    (m : Manager host) × (c : Wires) × (fuel : ℕ) × (h : Host (socket_channel other_host) memory)
    × (push_to_backup
          (socket_channel host)
          memory
          served
          (number write)
          (codes "f")
          (record { conn = connected host hung_up []; files = disk (codes "d/f") (codes "new") })
        ≡ ok tt (record { conn = m; files = disk (codes "d/f") (codes "new") }))
    × (m.socket ≡ some c)
    × (take_push
          (socket_channel other_host)
          memory
          local
          fuel
          (record { conn = connected other_host (wired c.outgoing) []; files = g })
        ≡ ok tt h)
    × (memory.read h.files (codes "./f") ≡ some (codes "oldnew"))
    × ((q : FilePath) → same (codes "./f") q ≡ false → memory.read h.files q ≡ memory.read g q)
unfolding text_eq until_zero
push_to_backup-replicates_example =
    push_to_backup-replicates host other_host host-IsPlatform other_host-IsPlatform memory memory
      memory-IsFileSystem memory-IsWilling served local (codes "f") (codes "new") (codes "old")
      hung_up [] (disk (codes "d/f") (codes "new")) wired [] (disk (codes "f") (codes "old"))
      (omega arith) refl refl refl refl refl (λ bs. refl) (λ bs. refl)

abbrev new_leader : Hub (socket_channel other_host) harbour memory
new_leader = record {
  server = lone (codes "10.0.0.1");
  files = disk [] [];
  sockets = calm;
  peers = [];
  backups = [];
  handlers = [];
}

join_leader-joins_example :
    (bs : List ℕ) × (m : Manager host) × (c : Wires) × (n k : Manager other_host) × (d : Wires)
    × (join_leader (socket_channel host) (connected host (wired bs) [])
        ≡ ok (leader_packet (codes "10.0.0.1"), clients_packet) m)
    × (m.socket ≡ some c)
    × (serve_connection
          (socket_channel other_host)
          harbour
          memory
          (connected other_host (wired c.outgoing) [])
          new_leader
        ≡ ok tt (record new_leader { peers = [] ++ (n ∷ []) }))
    × (peer_rounds (socket_channel other_host) harbour memory 2 (
          beside
            (socket_channel other_host)
            (socket_channel-IsChannel other_host other_host-IsPlatform)
            harbour
            memory
            (disk [] [])
            calm
            (some 7)
            n
            (lone (codes "10.0.0.1")))
        ≡ ok tt (
            beside
              (socket_channel other_host)
              (socket_channel-IsChannel other_host other_host-IsPlatform)
              harbour
              memory
              (disk [] [])
              calm
              (some 7)
              k
              (lone (codes "10.0.0.1"))))
    × (k.socket ≡ some d)
    × (d.outgoing ≡ bs)
join_leader-joins_example =
    join_leader-joins host other_host host-IsPlatform other_host-IsPlatform harbour memory wired
      wired (codes "10.0.0.1") [] [] (disk [] []) calm (some 7) new_leader refl (omega arith)
      (λ bs. refl) (λ bs. refl) (λ bs. refl) (λ bs. refl)

-- The peer of the second host closes behind its last packet.
closes_socket :
    (socket : Option Wires) (name : List ℕ) (qs : List Packet)
    → Incoming other_host other_host-IsPlatform socket []
    → Outgoing other_host other_host-IsPlatform socket qs
    → (e : Error) × (m : Manager other_host) × (receive_packet other_host
          (record { socket = socket; name = name })
        ≡ err e m)
      × Incoming other_host other_host-IsPlatform m.socket []
      × Outgoing other_host other_host-IsPlatform m.socket qs
closes_socket none name qs i o = absurd i
closes_socket (some w) name qs i o =
    let closed : IsClosed other_host.kernel w = record {
      recv-end = λ n. ap (λ l. read_byte l w) i.0;
    } in
    (
      closed_by_peer,
      connected other_host w name,
      (receive_closed other_host w name request closed (omega arith)).0,
      i,
      o,
    )

pub closes :
    Closes (socket_channel other_host) (socket_channel-IsChannel other_host other_host-IsPlatform)
closes m qs i o = closes_socket m.socket m.name qs i o

abbrev changed : Event
changed = record { mask = 0x8; len = 16; name = codes "f" }

without : IsWithout (codes "END_OF_FILE") (codes "new")
without front back e = absurd (
    omega (
      arith,
      ap length e,
      length-append front (codes "END_OF_FILE" ++ back),
      length-append (codes "END_OF_FILE") back,
    ))

change-lost_example :
    let g = disk (codes "sync_dir_ana/f") (codes "old") in
    let s = disk (codes "sync_dir/f") (codes "new") in
    (m : Manager host) × (c : Wires) × (fuel : ℕ) × (x : Error) × (h : Host
      (socket_channel other_host)
      memory)
    × (handle_event
          (socket_channel host)
          memory
          changed
          (record { conn = connected host hung_up []; files = s })
        ≡ ok tt (record { conn = m; files = s }))
    × (m.socket ≡ some c)
    × (watch_round memory
          (codes "ana")
          (socket_channel other_host)
          fuel
          (record { conn = connected other_host (wired c.outgoing) []; files = g })
        ≡ err x h)
    × (memory.read h.files (codes "sync_dir_ana/f") ≡ some (codes "old"))
    × (memory.read h.files (codes "sync_dir_ana/copy_f") ≡ some (codes "newxxx"))
unfolding has until_zero text_eq
change-lost_example =
    change-lost host other_host host-IsPlatform other_host-IsPlatform closes memory memory
      memory-IsFileSystem memory-IsWilling changed (codes "ana") (codes "new") (codes "old") hung_up
      [] (disk (codes "sync_dir/f") (codes "new")) wired []
      (disk (codes "sync_dir_ana/f") (codes "old")) refl refl (omega arith) refl refl without refl
      refl refl refl (λ bs. refl) (λ bs. refl)
