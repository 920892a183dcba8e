-- ===== src/ClientManager/Spread/Replica.antt =====
-- A changed file on the leader and on a backup.
use so2_final.Base.{
  ℕ, ◌^◌, ◌<◌, ◌≡◌, refl, ◌∙◌, false, some, List, [], ◌∷◌, ◌++◌, ok, All, All-append, >>=-ok,
  append_assoc, arith,
}
use so2_final.Network.Packet.{Packet, number, make_packet, write, max_packet_size}
use so2_final.Network.Manager.{Platform, IsPlatform, Manager, connected}
use so2_final.Network.Channel.{Channel, IsChannel, IsSendable}
use so2_final.Network.Channel.Socket.{
  Carries, make_packet-Carries, socket_channel, socket_channel-IsChannel,
}
use so2_final.Files.System.{FileSystem, FilePath, IsFileSystem, IsWilling}
use so2_final.Files.Manager.{FileManager, path}
use so2_final.Transfer.{Host, on_conn, send_file_in_chunks}
use so2_final.Transfer.Steps.{on_conn-ok}
use so2_final.Transfer.Sending.{IsChunking, contents, end_packet, send_file_in_chunks-sends}
use so2_final.Transfer.Receiving.{more}
use so2_final.Device.Text.{until_zero}
use so2_final.ClientManager.{push_to_backup, take_push}
use so2_final.ClientManager.Backup.{take_push-appends}
use so2_final.Client.Session.{IsChunking-Carries, end_packet-Carries, delivered}

-- What announces the file.
abbrev pub write_notice : List ℕ → Packet
write_notice name = make_packet (number write) 0 name

module _ (C : Channel) (ch : IsChannel C) (F : FileSystem) (f : FileManager) where
  -- A backup is sent the announcement of a written file that can be read, data packets numbered
  -- from 0 on that hold the file's bytes in order, and the closing packet.
  pub push_to_backup-sends :
      (name bytes : List ℕ) (h : Host C F) (ps qs : List Packet)
      → IsSendable name
      → F.read h.files (path f name) ≡ some bytes
      → ch.Inbox h.conn ps
      → ch.Outbox h.conn qs
      → (last : ℕ) × (sent : List Packet) × (c : C.Conn) × (push_to_backup C F f
            (number write)
            name
            h
          ≡ ok tt (record h { conn = c }))
        × (last < 2 ^ 16)
        × IsChunking 0 sent
        × (contents sent ≡ bytes)
        × ch.Inbox c ps
        × ch.Outbox c (qs ++ (write_notice name ∷ (sent ++ (end_packet last ∷ []))))
  unfolding push_to_backup
  push_to_backup-sends name bytes h ps qs fits found i o =
      let (c, s, i', o') =
        ch.send-sendable h.conn (number write) 0 name ps qs (omega arith) (omega arith) fits i o in
      let (last, sent, d, s', hl, chunked, whole, i'', o'') =
        send_file_in_chunks-sends C ch F f 2047 name bytes (record h { conn = c }) ps
          (qs ++ (write_notice name ∷ [])) (omega arith) found i' o' in
      (
        last,
        sent,
        d,
        >>=-ok (on_conn C F (C.send (number write) 0 name))
              (λ _. send_file_in_chunks C F f max_packet_size name) h
              (on_conn-ok C F (C.send (number write) 0 name) h s)
            ∙ s',
        hl,
        chunked,
        whole,
        i'',
        rw append_assoc at o'',
      )

replica-Carries :
    (name : List ℕ) (last : ℕ) (sent : List Packet)
    → IsSendable name
    → last < 2 ^ 16
    → IsChunking 0 sent
    → All Carries (write_notice name ∷ (sent ++ (end_packet last ∷ [])))
replica-Carries name last sent fits h k = (
  make_packet-Carries (number write) 0 name (omega arith) (omega arith) fits,
  All-append Carries sent (end_packet last ∷ []) (IsChunking-Carries 0 sent (omega arith) k)
      (end_packet-Carries last h, tt),
)

module _ (P Q : Platform) (p_sound : IsPlatform P) (q_sound : IsPlatform Q) (F G : FileSystem)
    (L : IsFileSystem G) (W : IsWilling G) where
  -- End to end over the sockets of two hosts with any byte orders and kernels that are reliable:
  -- if a written file has a name of 1 to 2048 bytes without a zero byte, the leader can read it,
  -- the backup holds a file of that name, the leader's connection has nothing left to read and
  -- nothing sent, and the backup's connection is one on which a given list of bytes can be read
  -- and nothing has been sent, then the part of `handle_new_push` for this backup returns with the
  -- leader's files as they were, and with the bytes that it has put on its socket as those to be
  -- read by the backup, a round of `receivePushsOn` returns after some number of packets; on the
  -- backup's lawful and willing file system the leader's bytes stand behind those that the file
  -- held before, and no other file has changed.
  pub push_to_backup-replicates :
      (leader backup : FileManager) (name bytes held : List ℕ) (c : P.kernel.Conn)
      (leader_name : List ℕ) (s : F.State) (wired : List ℕ → Q.kernel.Conn) (backup_name : List ℕ)
      (g : G.State)
      → IsSendable name
      → until_zero name ≡ name
      → F.read s (path leader name) ≡ some bytes
      → G.read g (path backup name) ≡ some held
      → p_sound.up.incoming c ≡ []
      → p_sound.up.outgoing c ≡ []
      → ((bs : List ℕ) → q_sound.up.incoming (wired bs) ≡ bs)
      → ((bs : List ℕ) → q_sound.up.outgoing (wired bs) ≡ [])
      → (m : Manager P) × (c' : P.kernel.Conn) × (fuel : ℕ) × (h : Host (socket_channel Q) G)
        × (push_to_backup
              (socket_channel P)
              F
              leader
              (number write)
              name
              (record { conn = connected P c leader_name; files = s })
            ≡ ok tt (record { conn = m; files = s }))
        × (m.socket ≡ some c')
        × (take_push (socket_channel Q) G backup fuel (record {
          conn = connected Q (wired (p_sound.up.outgoing c')) backup_name;
          files = g;
        })
            ≡ ok tt h)
        × (G.read h.files (path backup name) ≡ some (held ++ bytes))
        × ((q : FilePath) → L.same (path backup name) q ≡ false → G.read h.files q ≡ G.read g q)
  unfolding make_packet
  push_to_backup-replicates leader backup name bytes held c leader_name s wired backup_name g fits
        plain found there i o wi wo =
      let (last, sent, m, a, hl, chunked, whole, i', o') =
        push_to_backup-sends (socket_channel P) (socket_channel-IsChannel P p_sound) F leader name
          bytes (record { conn = connected P c leader_name; files = s }) [] [] fits found (i, tt)
          o in
      let (c', opened, arrived) =
        delivered P Q p_sound q_sound wired wi m.socket
          (write_notice name ∷ (sent ++ (end_packet last ∷ [])))
          (replica-Carries name last sent fits hl chunked) o' in
      let here : G.read g (path backup (until_zero name)) ≡ some held = rw plain there in
      let (h, r, i'', file, others) =
        take_push-appends (socket_channel Q) (socket_channel-IsChannel Q q_sound) G L W backup 0
          last (write_notice name) name bytes held
          (record { conn = connected Q (wired (p_sound.up.outgoing c')) backup_name; files = g })
          sent [] [] refl refl here chunked whole arrived (wo (p_sound.up.outgoing c')) in
      (m, c', more sent 1, h, a, opened, r, rw plain at file, rw plain at others)
