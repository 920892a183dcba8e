-- ===== src/Client/Pushes/Deletion/Delivery.antt =====
-- A deletion from the mailbox of a device to the directory of the client behind it.
use so2_final.Base.{ℕ, Bool, ◌≡◌, false, some, none, List, [], ◌∷◌, ok}
use so2_final.Network.Packet.{number, make_packet, delete}
use so2_final.Network.Manager.{Platform, IsPlatform, Manager, connected}
use so2_final.Network.Channel.{IsSendable}
use so2_final.Network.Channel.Socket.{socket_channel, socket_channel-IsChannel}
use so2_final.Files.System.{FileSystem, FilePath, IsFileSystem, IsWilling}
use so2_final.Files.Manager.{FileManager, path}
use so2_final.Transfer.{Host}
use so2_final.Device.Text.{until_zero, first_word}
use so2_final.Device.Mailbox.{Mailbox, push_round}
use so2_final.Client.Session.{delivered}
use so2_final.Client.Shell.{sync_dir}
use so2_final.Client.Pushes.{client_push_round}
use so2_final.Client.Pushes.Deletion.{
  holding, emptied, push_round-deletes, client_push_round-deletes,
}
use so2_final.Client.Events.Deletion.{deletion-Carries}

module _ (Q R : Platform) (q_sound : IsPlatform Q) (r_sound : IsPlatform R) (G H : FileSystem)
    (K : IsFileSystem H) (V : IsWilling H) where
  -- End to end over the sockets of two hosts with any byte orders and kernels that are reliable:
  -- if the mailbox of a device that has not been stopped holds a deletion, the name in it has 1 to
  -- 2048 bytes, no zero byte and no space, the server's connection has nothing left to read and
  -- nothing sent, and the client's connection is one on which a given list of bytes can be read
  -- and nothing has been sent, then the round of `pushThread`, whether or not the device is told
  -- to stop meanwhile, takes the command from the mailbox and frees the lock, with the server's
  -- files as they were; and with what it has put on its socket as the bytes to be read by the
  -- client, the round of `handlePushThread` returns, on a lawful and willing file system the file
  -- is gone from the client's directory, and no other file has changed.
  pub push-deletes :
      (stops : Bool) (f : FileManager) (name : List ℕ) (b : Mailbox) (n : ℕ) (c : Q.kernel.Conn)
      (pushing : List ℕ) (g : G.State) (wired : List ℕ → R.kernel.Conn) (client : List ℕ)
      (r : H.State)
      → b.stop_requested ≡ false
      → IsSendable name
      → first_word (until_zero name) ≡ name
      → q_sound.up.incoming c ≡ []
      → q_sound.up.outgoing c ≡ []
      → ((bs : List ℕ) → r_sound.up.incoming (wired bs) ≡ bs)
      → ((bs : List ℕ) → r_sound.up.outgoing (wired bs) ≡ [])
      → (m : Manager Q) × (c' : Q.kernel.Conn) × (h : Host (socket_channel R) H) × (push_round
            (socket_channel Q)
            G
            f
            stops
            (holding (number delete) name b, record { conn = connected Q c pushing; files = g })
          ≡ some (emptied stops (holding (number delete) name b), record { conn = m; files = g }))
        × (m.socket ≡ some c')
        × (client_push_round
              (socket_channel R)
              H
              n
              (record { conn = connected R (wired (q_sound.up.outgoing c')) client; files = r })
            ≡ ok tt h)
        × (H.read h.files (path sync_dir name) ≡ none)
        × ((q : FilePath) → K.same (path sync_dir name) q ≡ false → H.read h.files q ≡ H.read r q)
  push-deletes stops f name b n c pushing g wired client r running fits word i o wi wo =
      let (m, pushed, i1, o1) =
        push_round-deletes (socket_channel Q) (socket_channel-IsChannel Q q_sound) G stops f name b
          (record { conn = connected Q c pushing; files = g }) [] [] running fits (i, tt) o in
      let (c', opened, arrived) =
        delivered Q R q_sound r_sound wired wi m.socket (make_packet (number delete) 1 name ∷ [])
          (deletion-Carries name fits) o1 in
      let (h, taken, absent, others) =
        client_push_round-deletes (socket_channel R) (socket_channel-IsChannel R r_sound) H K V n
          name (record { conn = connected R (wired (q_sound.up.outgoing c')) client; files = r }) []
          [] word arrived (wo (q_sound.up.outgoing c')) in
      (m, c', h, pushed, opened, taken, absent, others)
