-- ===== src/Client/Events/Change.antt =====
-- A file that is written in the client's directory and the server's directory for that client.
use so2_final.Base.{
  ℕ, ◌^◌, ◌<◌, ◌≡◌, ◌≢◌, refl, sym, ap, ◌∙◌, true, false, some, List, [], ◌∷◌, ◌++◌, codes, ltb, ok,
  err, Error, All, All-append, >>=-ok, arith, text_eq_iff, append_assoc, Bool-cases, inl, inr,
}
use so2_final.Network.Packet.{Packet, number, make_packet, write, max_packet_size}
use so2_final.Network.Wire.{payload_bytes}
use so2_final.Network.Manager.{Platform, IsPlatform, Manager, connected}
use so2_final.Network.Channel.{Channel, IsChannel, IsSendable, Closes, send_text}
use so2_final.Network.Channel.Socket.{
  Carries, make_packet-Carries, socket_channel, socket_channel-IsChannel,
}
use so2_final.Files.System.{FileSystem, IsFileSystem, IsWilling}
use so2_final.Files.Manager.{path}
use so2_final.Transfer.{Host, on_conn, says_end, send_file_in_chunks}
use so2_final.Transfer.Steps.{on_conn-ok}
use so2_final.Transfer.Sending.{IsChunking, contents, end_packet, send_file_in_chunks-sends}
use so2_final.Transfer.Receiving.{more}
use so2_final.Device.Text.{until_zero, c_string}
use so2_final.Device.Watcher.{client_files, copy_name, write_watched, watch_packet, watch_round}
use so2_final.Device.Watcher.Writing.{write_watched_lost}
use so2_final.Client.Session.{IsChunking-Carries, end_packet-Carries, delivered}
use so2_final.Client.Shell.{sync_dir}
use so2_final.Client.Events.{Event, in_close_write, has, send_change, handle_event}

-- The text does not occur in the bytes.
abbrev pub IsWithout : List ℕ → List ℕ → Type 0
IsWithout text bytes = (front back : List ℕ) → bytes ≢ front ++ (text ++ back)

-- Then it is not a payload either.
contents-says_end :
    (front : List ℕ) (ps : List Packet)
    → IsWithout (codes "END_OF_FILE") (front ++ contents ps)
    → All (λ p. says_end p ≡ false) ps
contents-says_end front [] h = tt
contents-says_end front (p ∷ ps) h = (
  elim (Bool-cases (says_end p)) [
    | inr goes_on ↦ goes_on
    | inl stops ↦ absurd (
        h front (contents ps) (
          ap (λ t. front ++ (t ++ contents ps))
            ((text_eq_iff (payload_bytes p.payload) (codes "END_OF_FILE")).0 stops)))
  ],
  contents-says_end (front ++ payload_bytes p.payload) ps
      (λ f b e. h f b (sym (append_assoc front (payload_bytes p.payload) (contents ps)) ∙ e)),
)

pub contents-end :
    (ps : List Packet) (last : ℕ)
    → contents (ps ++ (end_packet last ∷ [])) ≡ contents ps ++ codes "xxx"
unfolding make_packet
contents-end [] last = refl
contents-end (p ∷ ps) last =
    ap (◌++◌ (payload_bytes p.payload)) (contents-end ps last)
    ∙ sym (append_assoc (payload_bytes p.payload) (contents ps) (codes "xxx"))

abbrev pub change_packet : List ℕ → Packet
change_packet name = make_packet (number write) 1 name

module _ (C : Channel) (ch : IsChannel C) (F : FileSystem) where
  handle_event-sends :
      (e : Event) (bytes : List ℕ) (h : Host C F) (ps qs : List Packet)
      → ltb 0 e.len ≡ true
      → has in_close_write e ≡ true
      → IsSendable e.name
      → F.read h.files (path sync_dir e.name) ≡ some bytes
      → ch.Inbox h.conn ps
      → ch.Outbox h.conn qs
      → (last : ℕ) × (sent : List Packet) × (c : C.Conn) × (handle_event C F e h
          ≡ ok tt (record h { conn = c }))
        × (last < 2 ^ 16)
        × IsChunking 0 sent
        × (contents sent ≡ bytes)
        × ch.Inbox c ps
        × ch.Outbox c (qs ++ (change_packet e.name ∷ (sent ++ (end_packet last ∷ []))))
  unfolding handle_event send_change
  handle_event-sends e bytes h ps qs named written fits found i o =
      let (c, s, i', o') =
        ch.send-sendable h.conn (number write) 1 e.name ps qs (omega arith) (omega arith) fits i
          o in
      let (last, sent, d, s', hl, chunked, whole, i'', o'') =
        send_file_in_chunks-sends C ch F sync_dir 2047 e.name bytes (record h { conn = c }) ps
          (qs ++ (change_packet e.name ∷ [])) (omega arith) found i' o' in
      (
        last,
        sent,
        d,
        rw (named, written)
            (>>=-ok (on_conn C F (send_text C write 1 e.name))
                (λ _. send_file_in_chunks C F sync_dir max_packet_size e.name) h
                (on_conn-ok C F (send_text C write 1 e.name) h s)
              ∙ s'),
        hl,
        chunked,
        whole,
        i'',
        rw append_assoc at o'',
      )

module _ (C : Channel) (ch : IsChannel C) (F : FileSystem) (username : List ℕ) where
  watch_round-writes :
      (fuel : ℕ) (name : List ℕ) (h : Host C F) (ps qs : List Packet)
      → until_zero name ≡ name
      → ch.Inbox h.conn (change_packet name ∷ ps)
      → ch.Outbox h.conn qs
      → (c : C.Conn) × (watch_round F username C fuel h
          ≡ write_watched F username C fuel name (record h { conn = c }))
        × ch.Inbox c ps
        × ch.Outbox c qs
  unfolding watch_round watch_packet c_string make_packet
  watch_round-writes fuel name h ps qs whole i o =
      let (c, r, i', o') = ch.receive-next h.conn (change_packet name) ps qs i o in
      (c, >>=-ok (on_conn C F C.receive) _ h (on_conn-ok C F C.receive h r) ∙ rw whole refl, i', o')

pub change-Carries :
    (name : List ℕ) (last : ℕ) (sent : List Packet)
    → IsSendable name
    → last < 2 ^ 16
    → IsChunking 0 sent
    → All Carries (change_packet name ∷ (sent ++ (end_packet last ∷ [])))
change-Carries name last sent fits h k = (
  make_packet-Carries (number write) 1 name (omega arith) (omega arith) fits,
  All-append Carries sent (end_packet last ∷ []) (IsChunking-Carries 0 sent (omega arith) k)
      (end_packet-Carries last h, tt),
)

module _ (P Q : Platform) (p_sound : IsPlatform P) (q_sound : IsPlatform Q)
    (closes : Closes (socket_channel Q) (socket_channel-IsChannel Q q_sound)) (F G : FileSystem)
    (L : IsFileSystem G) (W : IsWilling G) where
  -- End to end over the sockets of two hosts with any byte orders and kernels that are reliable:
  -- if an event with a name tells of a write, the name has 1 to 2048 bytes and no zero byte, the
  -- client can read the file and the text "END_OF_FILE" does not occur in it, the server's
  -- directory for the user has a file of that name, which is not the file of its copy, the
  -- client's connection has nothing left to read and nothing sent, the server's connection is one
  -- on which a given list of bytes can be read and nothing has been sent, and its peer closes
  -- behind the last packet, then `handleFileThread` deals with the event with the client's files
  -- as they were, and with the bytes that it has put on its socket as those to be read by the
  -- server, the round of `fileWatcherThread` ends by an exception after some number of packets; on
  -- a lawful and willing file system the server's file is as it was, and its copy holds the
  -- client's bytes and "xxx".
  pub change-lost :
      (e : Event) (username bytes old : List ℕ) (c : P.kernel.Conn) (client : List ℕ) (s : F.State)
      (wired : List ℕ → Q.kernel.Conn) (server : List ℕ) (g : G.State)
      → ltb 0 e.len ≡ true
      → has in_close_write e ≡ true
      → IsSendable e.name
      → until_zero e.name ≡ e.name
      → F.read s (path sync_dir e.name) ≡ some bytes
      → IsWithout (codes "END_OF_FILE") bytes
      → G.read g (path (client_files username) e.name) ≡ some old
      → L.same
          (path (client_files username) (copy_name e.name))
          (path (client_files username) e.name)
        ≡ false
      → p_sound.up.incoming c ≡ []
      → p_sound.up.outgoing c ≡ []
      → ((bs : List ℕ) → q_sound.up.incoming (wired bs) ≡ bs)
      → ((bs : List ℕ) → q_sound.up.outgoing (wired bs) ≡ [])
      → (m : Manager P) × (c' : P.kernel.Conn) × (fuel : ℕ) × (x : Error) × (h : Host
          (socket_channel Q)
          G)
        × (handle_event (socket_channel P) F e (record { conn = connected P c client; files = s })
            ≡ ok tt (record { conn = m; files = s }))
        × (m.socket ≡ some c')
        × (watch_round G username
              (socket_channel Q)
              fuel
              (record { conn = connected Q (wired (p_sound.up.outgoing c')) server; files = g })
            ≡ err x h)
        × (G.read h.files (path (client_files username) e.name) ≡ some old)
        × (G.read h.files (path (client_files username) (copy_name e.name))
            ≡ some (bytes ++ codes "xxx"))
  change-lost e username bytes old c client s wired server g named written fits plain found quiet
        there apart i o wi wo =
      let (last, sent, m, a, hl, chunked, whole, i', o') =
        handle_event-sends (socket_channel P) (socket_channel-IsChannel P p_sound) F e bytes
          (record { conn = connected P c client; files = s }) [] [] named written fits found (i, tt)
          o in
      let (c', opened, arrived) =
        delivered P Q p_sound q_sound wired wi m.socket
          (change_packet e.name ∷ (sent ++ (end_packet last ∷ [])))
          (change-Carries e.name last sent fits hl chunked) o' in
      let fuel = more (sent ++ (end_packet last ∷ [])) 1 in
      let (d, r, i'', o'') =
        watch_round-writes (socket_channel Q) (socket_channel-IsChannel Q q_sound) G username fuel
          e.name (record { conn = connected Q (wired (p_sound.up.outgoing c')) server; files = g })
          (sent ++ (end_packet last ∷ [])) [] plain arrived (wo (p_sound.up.outgoing c')) in
      let (x, h, e', kept, copied) =
        write_watched_lost (socket_channel Q) (socket_channel-IsChannel Q q_sound) G L W username
          e.name apart closes 0 last (record { conn = d; files = g }) sent [] [] old there
          (contents-says_end [] sent (rw whole quiet)) tt i'' o'' in
      (
        m,
        c',
        fuel,
        x,
        h,
        a,
        opened,
        r ∙ e',
        kept,
        copied ∙ ap some (contents-end sent last ∙ ap (λ t. t ++ codes "xxx") whole),
      )
