-- ===== src/Client/Events/Spreading.antt =====
-- A deletion in the directory of one client that the server passes on, with what becomes of the
-- packet that told of it.
use so2_final.Base.{ℕ, Bool, ◌≡◌, ◌⊎◌, true, false, some, none, List, [], ◌∷◌, ltb, map, ok, All}
use so2_final.Network.Packet.{Packet, number, make_packet, delete}
use so2_final.Network.Manager.{Platform, IsPlatform, Manager, connected}
use so2_final.Network.Channel.{IsSendable}
use so2_final.Network.Channel.Socket.{socket_channel, socket_channel-IsChannel}
use so2_final.Files.System.{FileSystem, FilePath, IsFileSystem, IsWilling}
use so2_final.Files.Manager.{path}
use so2_final.Device.Text.{until_zero}
use so2_final.Device.Watcher.{client_files}
use so2_final.Device.Relay.{Station, undefined, file_watcher_thread}
use so2_final.Device.Relay.Deletion.{relay_round-deletes, file_watcher_thread-undefined}
use so2_final.ClientManager.Push.{IsFree, passed}
use so2_final.ClientManager.Spread.{Herd}
use so2_final.ClientManager.Spread.Reach.{Open}
use so2_final.ClientManager.Spread.Notices.{AllGotNotice}
use so2_final.Client.Session.{delivered}
use so2_final.Client.Events.{Event, in_close_write, in_delete, has, handle_event}
use so2_final.Client.Events.Deletion.{handle_event-deletes, deletion-Carries}

module _ (P Q : Platform) (p_sound : IsPlatform P) (q_sound : IsPlatform Q) (F G : FileSystem)
    (L : IsFileSystem G) (W : IsWilling G) where
  -- End to end over the sockets of two hosts with any byte orders and kernels that are reliable:
  -- if an event with a name tells one client of a deletion and not of a write, the name has 1 to
  -- 2048 bytes and no zero byte, the server's directory for the user has a file of that name,
  -- every device of the user but the one of this client can take a command at once, the
  -- connections of the backups are open and none has been told yet, the client's connection has
  -- nothing left to read and nothing sent, the server's is one on which a given list of bytes can
  -- be read and nothing has been sent, and the device has not been told to stop when its
  -- `fileWatcherThread` starts a round, then `handleFileThread` deals with the event with the
  -- client's files as they were; and with what it has put on its socket as the bytes to be read by
  -- the server, that round of `fileWatcherThread` ends in undefined behaviour, since the packet
  -- that `handle_new_push` takes by value and the packet of the round both free the payload. Up to
  -- there, on a lawful and willing file system the file is gone from the server's directory and no
  -- other file has changed, every other device has the command in its mailbox, and every backup
  -- has been sent the notice.
  pub deletion-frees_twice :
      (e : Event) (username old : List ℕ) (stops : List Bool) (n caller : ℕ) (c : P.kernel.Conn)
      (deleting : List ℕ) (s : F.State) (wired : List ℕ → Q.kernel.Conn) (server : List ℕ)
      (herd : Herd (socket_channel Q) G) (qss : List (List Packet))
      → ltb 0 e.len ≡ true
      → has in_close_write e ≡ false
      → has in_delete e ≡ true
      → IsSendable e.name
      → until_zero e.name ≡ e.name
      → G.read herd.files (path (client_files username) e.name) ≡ some old
      → All (λ m. (m.address ≡ caller) ⊎ IsFree m) herd.devices
      → Open (socket_channel Q) (socket_channel-IsChannel Q q_sound) herd.backups qss
      → herd.told ≡ []
      → p_sound.up.incoming c ≡ []
      → p_sound.up.outgoing c ≡ []
      → ((bs : List ℕ) → q_sound.up.incoming (wired bs) ≡ bs)
      → ((bs : List ℕ) → q_sound.up.outgoing (wired bs) ≡ [])
      → (m : Manager P) × (c' : P.kernel.Conn) × (t : Station (socket_channel Q) G) × (handle_event
            (socket_channel P)
            F
            e
            (record { conn = connected P c deleting; files = s })
          ≡ ok tt (record { conn = m; files = s }))
        × (m.socket ≡ some c')
        × (file_watcher_thread
              (socket_channel Q)
              G
              username
              caller
              (false ∷ stops)
              n
              (record { conn = connected Q (wired (p_sound.up.outgoing c')) server; herd = herd })
            ≡ undefined t)
        × (G.read t.herd.files (path (client_files username) e.name) ≡ none)
        × ((q : FilePath)
            → L.same (path (client_files username) e.name) q ≡ false
            → G.read t.herd.files q ≡ G.read herd.files q)
        × (t.herd.devices ≡ map (passed caller (number delete) e.name) herd.devices)
        × AllGotNotice
            (socket_channel Q)
            (socket_channel-IsChannel Q q_sound)
            e.name
            qss
            t.herd.backups
  deletion-frees_twice e username old stops n caller c deleting s wired server herd qss named kept
        gone fits whole there free open_ fresh i o wi wo =
      let (m, a, i1, o1) =
        handle_event-deletes (socket_channel P) (socket_channel-IsChannel P p_sound) F e
          (record { conn = connected P c deleting; files = s }) [] [] named kept gone fits (i, tt)
          o in
      let (c', opened, arrived) =
        delivered P Q p_sound q_sound wired wi m.socket (make_packet (number delete) 1 e.name ∷ [])
          (deletion-Carries e.name fits) o1 in
      let station : Station (socket_channel Q) G = record {
        conn = connected Q (wired (p_sound.up.outgoing c')) server;
        herd = herd;
      } in
      let (t, relayed, i2, o2, absent, others, devices, told) =
        relay_round-deletes (socket_channel Q) (socket_channel-IsChannel Q q_sound) G username L W
          caller n e.name old station [] [] qss fits whole there free open_ fresh arrived
          (wo (p_sound.up.outgoing c')) in
      (
        m,
        c',
        t,
        a,
        opened,
        file_watcher_thread-undefined (socket_channel Q) (socket_channel-IsChannel Q q_sound) G
            username caller n stops station relayed,
        absent,
        others,
        devices,
        told,
      )
