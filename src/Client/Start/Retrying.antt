-- ===== src/Client/Start/Retrying.antt =====
-- A client that starts before its server listens.
use so2_final.Base.{
  ℕ, ◌≤◌, ◌<◌, ◌^◌, ◌≡◌, refl, ap, ◌∙◌, true, false, Option, none, some, List, [], ◌∷◌, ◌++◌, codes,
  leb, ◌==◌, ok, >>=-ok, M, arith,
}
use so2_final.Network.Packet.{Packet, PacketType, number, make_packet}
use so2_final.Network.Channel.{Channel, IsChannel, IsSendable}
use so2_final.Network.Sockets.{Sockets}
use so2_final.Network.Setup.{connect_to_socket, connect_manager}
use so2_final.Network.Setup.Retries.{after, Fails, connect_to_socket-retries}
use so2_final.Files.System.{FileSystem}
use so2_final.Files.Manager.{make_file_manager}
use so2_final.Decimal.{to_string, stoi, low_bits}
use so2_final.Decimal.RoundTrip.{stoi-to_string}
use so2_final.Client.Handshake.{shake_hands}
use so2_final.Client.Handshake.Ports.{port_packet, positive, shake_hands-reads}
use so2_final.Client.Shell.{sync_dir, current_dir}
use so2_final.Client.Start.{Process, make_client, on_made, open_manager, talk}

connect_manager-retries :
    (N : Sockets) (ip : List ℕ) (port n : ℕ) (s s' : N.State) (fd : ℕ) (a : N.Address)
    → 0 < fd
    → n ≤ 150
    → N.socket s ≡ (some fd, s')
    → N.inet_pton ip ≡ some a
    → Fails N (some fd) a port n s'
    → (N.connect (after N (some fd) a port n s') (some fd) a port).0 ≡ true
    → connect_manager N ip port (record { sockets = s; socket_fd = none })
      ≡ ok tt (record {
        sockets = (N.connect (after N (some fd) a port n s') (some fd) a port).1;
        socket_fd = some fd;
      })
unfolding connect_manager
connect_manager-retries N ip port n s s' fd a proper few made known f c =
    let soon : leb n 150 ≡ true = ground arith in
    let nonzero : (fd == 0) ≡ false = ground arith in
    let reached : connect_to_socket N ip port s
        ≡ (some fd, (N.connect (after N (some fd) a port n s') (some fd) a port).1) =
      connect_to_socket-retries N ip port n s s' (some fd) a made known f c ∙ rw soon refl in
    rw (reached, connect_manager)
      (rw nonzero (ap (λ r. ok tt (record { sockets = r.1; socket_fd = some fd })) reached))

module _ (C : Channel) (ch : IsChannel C) (N : Sockets) (F : FileSystem)
    (link : Option ℕ → C.Conn) where
  -- A directory that is there is left as it is.
  make_file_manager-there :
      (base : List ℕ) (p : Process C N F)
      → F.is_directory p.files base ≡ some true
      → on_made C N F link (make_file_manager F base) p ≡ ok (record { base_directory = base }) p
  unfolding on_made make_file_manager
  make_file_manager-there base p there = rw (there, on_made, make_file_manager) refl

  talk-ok {ℓ} :
      {A : Type ℓ} (call : M C.Conn A) (c c' : C.Conn) (a : A) (p : Process C N F)
      → call c ≡ ok a c'
      → talk C N F link call c p ≡ ok (a, c') (record p { conn = some c' })
  unfolding talk
  talk-ok call c c' a p e = rw (e, talk) refl

  open_manager-ok :
      (ip : List ℕ) (port : ℕ) (fd : ℕ) (s : N.State) (p : Process C N F)
      → port < 2 ^ 16
      → connect_manager N ip port (record { sockets = p.sockets; socket_fd = none })
        ≡ ok tt (record { sockets = s; socket_fd = some fd })
      → open_manager C N F link ip (positive port) p
        ≡ ok (link (some fd)) (record p { sockets = s; conn = some (link (some fd)) })
  unfolding open_manager
  open_manager-ok ip port fd s p h e =
      let short : low_bits (positive port) ≡ port = omega arith in
      let reached : connect_manager N ip (low_bits (positive port))
            (record { sockets = p.sockets; socket_fd = none })
          ≡ ok tt (record { sockets = s; socket_fd = some fd }) =
        ap (λ q. connect_manager N ip q (record { sockets = p.sockets; socket_fd = none })) short
        ∙ e in
      rw (reached, open_manager) refl

  -- If the port is a number of 16 bits, the address is well formed, `socket` gives a descriptor
  -- above 0, up to 150 calls of `connect` in a row fail and the next one succeeds, both
  -- directories are there, the client's name has 1 to 2048 bytes, and two packets with numbers of
  -- 31 bits are first to be read on the connection, then the constructor of `Client` gets to its
  -- threads: with these two numbers as the ports of the push thread and the file thread, with the
  -- packet of its name sent and no other, and with the files as they were.
  pub make_client-retries :
      (client_name ip : List ℕ) (port tries m n fd : ℕ) (s' : N.State) (a : N.Address)
      (rest qs : List Packet) (p : Process C N F)
      → IsSendable client_name
      → port < 2 ^ 16
      → m < 2 ^ 31
      → n < 2 ^ 31
      → 0 < fd
      → tries ≤ 150
      → N.socket p.sockets ≡ (some fd, s')
      → N.inet_pton ip ≡ some a
      → Fails N (some fd) a port tries s'
      → (N.connect (after N (some fd) a port tries s') (some fd) a port).0 ≡ true
      → ch.Inbox (link (some fd)) (port_packet m ∷ port_packet n ∷ rest)
      → ch.Outbox (link (some fd)) qs
      → F.is_directory p.files (codes "sync_dir") ≡ some true
      → F.is_directory p.files (codes "./") ≡ some true
      → (c : C.Conn) × (make_client C N F link client_name ip (to_string port) p
          ≡ ok
              (record {
                command_manager = c;
                push_port = positive m;
                file_watcher_port = positive n;
                sync_dir_file_manager = sync_dir;
                curr_directory_file_manager = current_dir;
              })
              (record p {
                sockets = (N.connect (after N (some fd) a port tries s') (some fd) a port).1;
                conn = some c;
              }))
        × ch.Inbox c rest
        × ch.Outbox c (qs ++ (make_packet (number PacketType.client) 1 client_name ∷ []))
  unfolding make_client
  make_client-retries client_name ip port tries m n fd s' a rest qs p fits hp hm hn proper few made
        known f up i o there here =
      let (c, shaken, i', o') =
        shake_hands-reads C ch client_name m n (link (some fd)) rest qs fits hm hn i o in
      let up_state = (N.connect (after N (some fd) a port tries s') (some fd) a port).1 in
      let q : Process C N F = record p { sockets = up_state; conn = some (link (some fd)) } in
      let p' : Process C N F = record p { sockets = up_state; conn = some c } in
      (
        c,
        >>=-ok (stoi (to_string port)) _ p (stoi-to_string port p (omega arith))
            ∙ >>=-ok (open_manager C N F link ip (positive port)) _ p (
                open_manager-ok ip port fd up_state p hp (
                  connect_manager-retries N ip port tries p.sockets s' fd a proper few made known f
                    up))
            ∙ >>=-ok (talk C N F link (shake_hands C client_name) (link (some fd))) _ q (
                talk-ok (shake_hands C client_name) (link (some fd)) c (positive m, positive n) q
                  shaken)
            ∙ >>=-ok (on_made C N F link (make_file_manager F (codes "sync_dir"))) _ p'
                (make_file_manager-there (codes "sync_dir") p' there)
            ∙ >>=-ok (on_made C N F link (make_file_manager F (codes "./"))) _ p'
                (make_file_manager-there (codes "./") p' here),
        i',
        o',
      )
