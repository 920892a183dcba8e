-- ===== src/Client/Pushes/Change.antt =====
-- A written file from the mailbox of a device to the directory of its client.
use so2_final.Base.{
  ℕ, Bool, ◌^◌, ◌<◌, ◌≡◌, refl, ◌∙◌, ap, false, some, List, [], ◌∷◌, ◌++◌, codes, Error, ok, err,
  >>=-ok, arith, append_assoc,
}
use so2_final.Network.Packet.{Packet, number, make_packet, write, max_packet_size}
use so2_final.Network.Manager.{Platform, IsPlatform, Manager, connected}
use so2_final.Network.Channel.{Channel, IsChannel, IsSendable, Closes, send_text}
use so2_final.Network.Channel.Socket.{socket_channel, socket_channel-IsChannel}
use so2_final.Files.System.{FileSystem, FilePath, IsFileSystem, IsWilling}
use so2_final.Files.Manager.{FileManager, path, clear_file}
use so2_final.Files.Manager.Laws.{clear_file-clears}
use so2_final.Transfer.{Host, on_conn, on_files, send_file_in_chunks}
use so2_final.Transfer.Steps.{on_conn-ok, on_files-ok}
use so2_final.Transfer.Sending.{IsChunking, contents, end_packet, send_file_in_chunks-sends}
use so2_final.Transfer.Receiving.{more, receive_push-runs_on}
use so2_final.Device.Text.{c_string, first_word, until_zero}
use so2_final.Device.Mailbox.{Mailbox, push_command_to, push_round}
use so2_final.Client.Session.{delivered}
use so2_final.Client.Shell.{sync_dir}
use so2_final.Client.Events.Change.{change_packet, change-Carries, contents-end}
use so2_final.Client.Pushes.{take_change, client_push_round}
use so2_final.Client.Pushes.Deletion.{holding, emptied}

module _ (C : Channel) (ch : IsChannel C) (F : FileSystem) where
  -- The push thread sends the file that waits, and the lock is free again.
  push_round-writes :
      (stops : Bool) (f : FileManager) (name bytes : List ℕ) (m : Mailbox) (h : Host C F)
      (ps qs : List Packet)
      → m.stop_requested ≡ false
      → first_word name ≡ name
      → IsSendable name
      → F.read h.files (path f name) ≡ some bytes
      → ch.Inbox h.conn ps
      → ch.Outbox h.conn qs
      → (last : ℕ) × (sent : List Packet) × (c : C.Conn) × (push_round C F f stops
            (holding (number write) name m, h)
          ≡ some (emptied stops (holding (number write) name m), record h { conn = c }))
        × (last < 2 ^ 16)
        × IsChunking 0 sent
        × (contents sent ≡ bytes)
        × ch.Inbox c ps
        × ch.Outbox c (qs ++ (change_packet name ∷ (sent ++ (end_packet last ∷ []))))
  unfolding push_round push_command_to
  push_round-writes stops f name bytes m h ps qs go word fits found i o =
      let (c, s, i', o') =
        ch.send-sendable h.conn (number write) 1 name ps qs (omega arith) (omega arith) fits i o in
      let (last, sent, d, s', hl, chunked, whole, i'', o'') =
        send_file_in_chunks-sends C ch F f 2047 name bytes (record h { conn = c }) ps
          (qs ++ (change_packet name ∷ [])) (omega arith) found i' o' in
      let pushed : push_command_to C F f (number write) name h ≡ ok tt (record h { conn = d }) =
        >>=-ok (on_conn C F (send_text C write 1 name))
          (λ _. send_file_in_chunks C F f max_packet_size (first_word name)) h
          (on_conn-ok C F (send_text C write 1 name) h s)
        ∙ rw word s' in
      (last, sent, d, rw go (rw pushed refl), hl, chunked, whole, i'', rw append_assoc at o'')

  -- The client empties the file and appends the payloads of all packets, the closing one
  -- included, until the connection ends.
  client_push_round-runs_on :
      (L : IsFileSystem F) (W : IsWilling F) (closes : Closes C ch) (name : List ℕ) (h : Host C F)
      (ps qs : List Packet)
      → first_word (until_zero name) ≡ name
      → ch.Inbox h.conn (change_packet name ∷ ps)
      → ch.Outbox h.conn qs
      → (x : Error) × (h' : Host C F) × (client_push_round C F (more ps 1) h ≡ err x h')
        × (F.read h'.files (path sync_dir name) ≡ some (contents ps))
        × ((q : FilePath)
            → L.same (path sync_dir name) q ≡ false
            → F.read h'.files q ≡ F.read h.files q)
  unfolding client_push_round take_change c_string make_packet
  client_push_round-runs_on L W closes name h ps qs word i o =
      let p = change_packet name in
      let (c, r, i', o') = ch.receive-next h.conn p ps qs i o in
      let (s, e, empty, others) = clear_file-clears F L W sync_dir name h.files in
      let (x, h', e', r') =
        receive_push-runs_on C ch F L W sync_dir closes 0 p name (record { conn = c; files = s }) ps
          qs [] refl (record { inbox = i'; outbox = o'; file = empty; others = λ q z. refl }) in
      (
        x,
        h',
        >>=-ok (on_conn C F C.receive) _ h (on_conn-ok C F C.receive h r)
            ∙ rw word (
                >>=-ok (on_files C F (clear_file F sync_dir name)) _ (record h { conn = c })
                  (on_files-ok C F (clear_file F sync_dir name) (record h { conn = c }) e)
                ∙ e'),
        r'.file,
        λ q z. r'.others q z ∙ others q z,
      )

module _ (Q R : Platform) (q_sound : IsPlatform Q) (r_sound : IsPlatform R)
    (closes : Closes (socket_channel R) (socket_channel-IsChannel R r_sound)) (G H : FileSystem)
    (K : IsFileSystem H) (V : IsWilling H) where
  -- End to end over the sockets of two hosts with any byte orders and kernels that are reliable:
  -- if the mailbox of a device that has not been stopped holds a written file, whose name has 1 to
  -- 2048 bytes, no zero byte and no space, the server can read the file, the server's connection
  -- has nothing left to read and nothing sent, the client's connection is one on which a given
  -- list of bytes can be read and nothing has been sent, and its peer closes behind the last
  -- packet, then the round of `pushThread`, whether or not the device is told to stop meanwhile,
  -- takes the command from the mailbox and frees the lock; and with what it has put on its socket
  -- as the bytes to be read by the client, the round of `handlePushThread` ends by an exception
  -- after some number of packets; on a lawful and willing file system the client's file holds the
  -- server's bytes and "xxx", and no other file has changed.
  pub push-runs_on :
      (stops : Bool) (f : FileManager) (name bytes : List ℕ) (d : Mailbox) (c : Q.kernel.Conn)
      (server : List ℕ) (g : G.State) (wired : List ℕ → R.kernel.Conn) (client : List ℕ)
      (r : H.State)
      → d.stop_requested ≡ false
      → first_word name ≡ name
      → until_zero name ≡ name
      → IsSendable name
      → G.read g (path f name) ≡ some bytes
      → q_sound.up.incoming c ≡ []
      → q_sound.up.outgoing c ≡ []
      → ((bs : List ℕ) → r_sound.up.incoming (wired bs) ≡ bs)
      → ((bs : List ℕ) → r_sound.up.outgoing (wired bs) ≡ [])
      → (m : Manager Q) × (c' : Q.kernel.Conn) × (fuel : ℕ) × (x : Error) × (h : Host
          (socket_channel R)
          H)
        × (push_round
              (socket_channel Q)
              G
              f
              stops
              (holding (number write) name d, record { conn = connected Q c server; files = g })
            ≡ some (emptied stops (holding (number write) name d), record { conn = m; files = g }))
        × (m.socket ≡ some c')
        × (client_push_round
              (socket_channel R)
              H
              fuel
              (record { conn = connected R (wired (q_sound.up.outgoing c')) client; files = r })
            ≡ err x h)
        × (H.read h.files (path sync_dir name) ≡ some (bytes ++ codes "xxx"))
        × ((q : FilePath) → K.same (path sync_dir name) q ≡ false → H.read h.files q ≡ H.read r q)
  push-runs_on stops f name bytes d c server g wired client r running word plain fits found i o wi
        wo =
      let (last, sent, m, a, hl, chunked, whole, i', o') =
        push_round-writes (socket_channel Q) (socket_channel-IsChannel Q q_sound) G stops f name
          bytes d (record { conn = connected Q c server; files = g }) [] [] running word fits found
          (i, tt) o in
      let ps = sent ++ (end_packet last ∷ []) in
      let (c', opened, arrived) =
        delivered Q R q_sound r_sound wired wi m.socket (change_packet name ∷ ps)
          (change-Carries name last sent fits hl chunked) o' in
      let (x, h, e, file, others) =
        client_push_round-runs_on (socket_channel R) (socket_channel-IsChannel R r_sound) H K V
          closes name
          (record { conn = connected R (wired (q_sound.up.outgoing c')) client; files = r }) ps []
          (ap first_word plain ∙ word) arrived (wo (q_sound.up.outgoing c')) in
      (
        m,
        c',
        more ps 1,
        x,
        h,
        a,
        opened,
        e,
        file ∙ ap some (contents-end sent last ∙ ap (λ t. t ++ codes "xxx") whole),
        others,
      )
