-- ===== src/Tests/Spreads.antt =====
-- Changes that the server passes on, over sockets between hosts of different byte orders.
use so2_final.Base.{
  ℕ, ◌≡◌, refl, true, false, some, none, [], ◌∷◌, codes, Error, ok, err, map, text_eq, inl, inr,
  arith,
}
use so2_final.Network.Packet.{number, delete, write}
use so2_final.Network.Manager.{Manager, connected}
use so2_final.Network.Channel.Socket.{socket_channel, socket_channel-IsChannel}
use so2_final.Files.System.{FilePath}
use so2_final.Transfer.{Host}
use so2_final.Device.Text.{first_word, until_zero}
use so2_final.Device.Mailbox.{new_mailbox, push_round}
use so2_final.Device.Relay.{Station, undefined, file_watcher_thread}
use so2_final.ClientManager.{Member}
use so2_final.ClientManager.Push.{passed}
use so2_final.ClientManager.Spread.{Herd}
use so2_final.ClientManager.Spread.Notices.{AllGotNotice}
use so2_final.Client.Pushes.{client_push_round}
use so2_final.Client.Pushes.Deletion.{holding, emptied}
use so2_final.Client.Pushes.Deletion.Delivery.{push-deletes}
use so2_final.Client.Pushes.Change.{push-runs_on}
use so2_final.Client.Events.{has, handle_event}
use so2_final.Client.Events.Spreading.{deletion-frees_twice}
use so2_final.Tests.Memory.{memory, memory-IsFileSystem, memory-IsWilling, disk, same}
use so2_final.Tests.Wired.{Wires, host, host-IsPlatform, hung_up}
use so2_final.Tests.Sessions.{other_host, other_host-IsPlatform, wired, removed, served}
use so2_final.Tests.Peers.{closes}

abbrev device : ℕ → Member
device a = record { address = a; mailbox = new_mailbox 0 }

abbrev herd : Herd (socket_channel other_host) memory
herd = record {
  files = disk (codes "sync_dir_ana/f") (codes "a");
  devices = device 1 ∷ device 2 ∷ [];
  backups = connected other_host hung_up [] ∷ [];
  told = [];
}

deletion-frees_twice_example :
    (m : Manager host) × (c : Wires) × (t : Station (socket_channel other_host) memory)
    × (handle_event
          (socket_channel host)
          memory
          removed
          (record { conn = connected host hung_up []; files = disk [] [] })
        ≡ ok tt (record { conn = m; files = disk [] [] }))
    × (m.socket ≡ some c)
    × (file_watcher_thread
          (socket_channel other_host)
          memory
          (codes "ana")
          1
          (false ∷ [])
          0
          (record { conn = connected other_host (wired c.outgoing) []; herd = herd })
        ≡ undefined t)
    × (memory.read t.herd.files (codes "sync_dir_ana/f") ≡ none)
    × ((q : FilePath)
        → same (codes "sync_dir_ana/f") q ≡ false
        → memory.read t.herd.files q ≡ memory.read herd.files q)
    × (t.herd.devices ≡ map (passed 1 (number delete) (codes "f")) herd.devices)
    × AllGotNotice
        (socket_channel other_host)
        (socket_channel-IsChannel other_host other_host-IsPlatform)
        (codes "f")
        ([] ∷ [])
        t.herd.backups
unfolding has until_zero text_eq
deletion-frees_twice_example =
    deletion-frees_twice host other_host host-IsPlatform other_host-IsPlatform memory memory
      memory-IsFileSystem memory-IsWilling removed (codes "ana") (codes "a") [] 0 1 hung_up []
      (disk [] []) wired [] herd ([] ∷ []) refl refl refl (omega arith) refl refl
      (inl refl, (inr refl, tt)) (([], (refl, tt), refl), tt) refl refl refl (λ bs. refl)
      (λ bs. refl)

push-deletes_example :
    let r = disk (codes "sync_dir/f") (codes "b") in
    (m : Manager other_host) × (c : Wires) × (h : Host (socket_channel host) memory) × (push_round
        (socket_channel other_host)
        memory
        served
        true
        (
          holding (number delete) (codes "f") (new_mailbox 0),
          record { conn = connected other_host hung_up []; files = disk [] [] },
        )
      ≡ some (
        emptied true (holding (number delete) (codes "f") (new_mailbox 0)),
        record { conn = m; files = disk [] [] },
      ))
    × (m.socket ≡ some c)
    × (client_push_round
          (socket_channel host)
          memory
          0
          (record { conn = connected host (wired c.outgoing) []; files = r })
        ≡ ok tt h)
    × (memory.read h.files (codes "sync_dir/f") ≡ none)
    × ((q : FilePath)
        → same (codes "sync_dir/f") q ≡ false
        → memory.read h.files q ≡ memory.read r q)
unfolding until_zero first_word text_eq
push-deletes_example =
    push-deletes other_host host other_host-IsPlatform host-IsPlatform memory memory
      memory-IsFileSystem memory-IsWilling true served (codes "f") (new_mailbox 0) 0 hung_up []
      (disk [] []) wired [] (disk (codes "sync_dir/f") (codes "b")) refl (omega arith) refl refl
      refl (λ bs. refl) (λ bs. refl)

push-runs_on_example :
    let g = disk (codes "d/f") (codes "new") in
    let r = disk (codes "sync_dir/f") (codes "old") in
    (m : Manager host) × (c : Wires) × (fuel : ℕ) × (x : Error) × (h : Host
      (socket_channel other_host)
      memory)
    × (push_round (socket_channel host) memory served false (
      holding (number write) (codes "f") (new_mailbox 0),
      record { conn = connected host hung_up []; files = g },
    )
        ≡ some (
          emptied false (holding (number write) (codes "f") (new_mailbox 0)),
          record { conn = m; files = g },
        ))
    × (m.socket ≡ some c)
    × (client_push_round
          (socket_channel other_host)
          memory
          fuel
          (record { conn = connected other_host (wired c.outgoing) []; files = r })
        ≡ err x h)
    × (memory.read h.files (codes "sync_dir/f") ≡ some (codes "newxxx"))
    × ((q : FilePath)
        → same (codes "sync_dir/f") q ≡ false
        → memory.read h.files q ≡ memory.read r q)
unfolding until_zero first_word text_eq
push-runs_on_example =
    push-runs_on host other_host host-IsPlatform other_host-IsPlatform closes memory memory
      memory-IsFileSystem memory-IsWilling false served (codes "f") (codes "new") (new_mailbox 0)
      hung_up [] (disk (codes "d/f") (codes "new")) wired []
      (disk (codes "sync_dir/f") (codes "old")) refl refl refl (omega arith) refl refl refl
      (λ bs. refl) (λ bs. refl)
