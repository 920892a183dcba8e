-- ===== src/Client/Handshake/Ports.antt =====
-- The ports that a client reads against those that the server's device listens on.
use so2_final.Base.{
  ℕ, ◌^◌, ◌<◌, ◌≡◌, ◌∙◌, false, none, some, List, [], ◌∷◌, ◌++◌, ok, All, >>=-ok, M, arith,
  append_assoc,
}
use so2_final.Network.Packet.{Packet, PacketType, number, make_packet}
use so2_final.Network.Manager.{Platform, IsPlatform, Manager, connected}
use so2_final.Network.Channel.{Channel, IsChannel, IsSendable, send_text}
use so2_final.Network.Channel.Socket.{
  Carries, make_packet-Carries, socket_channel, socket_channel-IsChannel,
}
use so2_final.Network.Sockets.{Sockets}
use so2_final.Network.Setup.{Endpoint, create_and_setup_socket, accept_connection}
use so2_final.Device.Text.{c_string}
use so2_final.Device.Arrival.{Arrival, on_command, on_push, on_watcher, make_device}
use so2_final.Decimal.{Signed, to_string}
use so2_final.Decimal.RoundTrip.{stoi-to_string, until_zero-to_string, length-to_string}
use so2_final.Client.Session.{delivered}
use so2_final.Client.Handshake.{port_in, shake_hands}

abbrev pub port_packet : ℕ → Packet
port_packet n = make_packet (number PacketType.port) 1 (to_string n)

abbrev pub positive : ℕ → Signed
positive n = record { negative = false; size = n }

to_string-IsSendable : (n : ℕ) → IsSendable (to_string n)
to_string-IsSendable n = omega (arith, (length-to_string n).0, (length-to_string n).1)

port_in-port_packet :
    {S : Type 0} (n : ℕ) (s : S) → n < 2 ^ 31 → port_in (port_packet n) s ≡ ok (positive n) s
unfolding port_in c_string make_packet
port_in-port_packet n s h = rw (until_zero-to_string n) (stoi-to_string n s h)

module _ (C : Channel) (ch : IsChannel C) where
  pub shake_hands-reads :
      (client_name : List ℕ) (m n : ℕ) (c : C.Conn) (rest qs : List Packet)
      → IsSendable client_name
      → m < 2 ^ 31
      → n < 2 ^ 31
      → ch.Inbox c (port_packet m ∷ port_packet n ∷ rest)
      → ch.Outbox c qs
      → (c' : C.Conn) × (shake_hands C client_name c ≡ ok (positive m, positive n) c')
        × ch.Inbox c' rest
        × ch.Outbox c' (qs ++ (make_packet (number PacketType.client) 1 client_name ∷ []))
  unfolding shake_hands make_packet
  shake_hands-reads client_name m n c rest qs fits hm hn i o =
      let (c1, s, i1, o1) =
        ch.send-sendable c (number PacketType.client) 1 client_name
          (port_packet m ∷ port_packet n ∷ rest) qs (omega arith) (omega arith) fits i o in
      let (c2, r, i2, o2) = ch.receive-next c1 (port_packet m) (port_packet n ∷ rest) _ i1 o1 in
      let (c3, r', i3, o3) = ch.receive-next c2 (port_packet n) rest _ i2 o2 in
      (
        c3,
        >>=-ok (send_text C PacketType.client 1 client_name) _ c s
            ∙ >>=-ok C.receive _ c1 r
            ∙ >>=-ok (port_in (port_packet m)) _ c2 (port_in-port_packet m c2 hm)
            ∙ >>=-ok C.receive _ c2 r'
            ∙ >>=-ok (port_in (port_packet n)) _ c3 (port_in-port_packet n c3 hn),
        i3,
        o3,
      )

module _ (C : Channel) (N : Sockets) where
  on_push-ok {ℓ} :
      {A : Type ℓ} (call : M (Endpoint N) A) (a : Arrival C N) {x : A} {e : Endpoint N}
      → call (record { sockets = a.sockets; socket_fd = a.push }) ≡ ok x e
      → on_push C N call a ≡ ok x (record a { sockets = e.sockets; push = e.socket_fd })
  on_push-ok call a made = rw (made, on_push)

  on_watcher-ok {ℓ} :
      {A : Type ℓ} (call : M (Endpoint N) A) (a : Arrival C N) {x : A} {e : Endpoint N}
      → call (record { sockets = a.sockets; socket_fd = a.watcher }) ≡ ok x e
      → on_watcher C N call a ≡ ok x (record a { sockets = e.sockets; watcher = e.socket_fd })
  on_watcher-ok call a made = rw (made, on_watcher)

  on_command-ok {ℓ} :
      {A : Type ℓ} (call : M C.Conn A) (a : Arrival C N) {x : A} {c : C.Conn}
      → call a.conn ≡ ok x c
      → on_command C N call a ≡ ok x (record a { conn = c })
  on_command-ok call a sent = rw (sent, on_command)

  -- A device whose managers have no sockets yet.
  abbrev pub arriving : C.Conn → N.State → Arrival C N
  arriving c s = record { conn = c; sockets = s; push = none; watcher = none }

  make_device-steps :
      (c d d' : C.Conn) (s : N.State) (m n : ℕ) (e f g h : Endpoint N)
      → create_and_setup_socket N (record { sockets = s; socket_fd = none }) ≡ ok m e
      → create_and_setup_socket N (record { sockets = e.sockets; socket_fd = none }) ≡ ok n f
      → accept_connection N (record { sockets = f.sockets; socket_fd = e.socket_fd }) ≡ ok tt g
      → accept_connection N (record { sockets = g.sockets; socket_fd = f.socket_fd }) ≡ ok tt h
      → send_text C PacketType.port 1 (to_string m) c ≡ ok tt d
      → send_text C PacketType.port 1 (to_string n) d ≡ ok tt d'
      → make_device C N (arriving c s)
        ≡ ok tt
            (record { conn = d'; sockets = h.sockets; push = g.socket_fd; watcher = h.socket_fd })
  unfolding make_device
  make_device-steps c d d' s m n e f g h made made' accepted accepted' sent sent' =
      >>=-ok (on_push C N (create_and_setup_socket N)) _ (arriving c s)
        (on_push-ok (create_and_setup_socket N) (arriving c s) made)
      ∙ >>=-ok (on_command C N (send_text C PacketType.port 1 (to_string m))) _ _
          (on_command-ok (send_text C PacketType.port 1 (to_string m)) _ sent)
      ∙ >>=-ok (on_watcher C N (create_and_setup_socket N)) _ _
          (on_watcher-ok (create_and_setup_socket N) _ made')
      ∙ >>=-ok (on_command C N (send_text C PacketType.port 1 (to_string n))) _ _
          (on_command-ok (send_text C PacketType.port 1 (to_string n)) _ sent')
      ∙ >>=-ok (on_push C N (accept_connection N)) _ _ (on_push-ok (accept_connection N) _ accepted)
      ∙ on_watcher-ok (accept_connection N) _ accepted'

  module _ (ch : IsChannel C) where
    -- The device tells the two ports that its sockets got, in this order.
    make_device-tells :
        (c : C.Conn) (s : N.State) (ps qs : List Packet) (m n : ℕ) (e f g h : Endpoint N)
        → create_and_setup_socket N (record { sockets = s; socket_fd = none }) ≡ ok m e
        → create_and_setup_socket N (record { sockets = e.sockets; socket_fd = none }) ≡ ok n f
        → accept_connection N (record { sockets = f.sockets; socket_fd = e.socket_fd }) ≡ ok tt g
        → accept_connection N (record { sockets = g.sockets; socket_fd = f.socket_fd }) ≡ ok tt h
        → ch.Inbox c ps
        → ch.Outbox c qs
        → (d : C.Conn) × (make_device C N (arriving c s)
            ≡ ok tt (record {
              conn = d;
              sockets = h.sockets;
              push = g.socket_fd;
              watcher = h.socket_fd;
            }))
          × ch.Inbox d ps
          × ch.Outbox d (qs ++ (port_packet m ∷ port_packet n ∷ []))
    make_device-tells c s ps qs m n e f g h made made' accepted accepted' i o =
        let (d, sent, i', o') =
          ch.send-sendable c (number PacketType.port) 1 (to_string m) ps qs (omega arith)
            (omega arith) (to_string-IsSendable m) i o in
        let (d', sent', i'', o'') =
          ch.send-sendable d (number PacketType.port) 1 (to_string n) ps
            (qs ++ (port_packet m ∷ [])) (omega arith) (omega arith) (to_string-IsSendable n) i'
            o' in
        (
          d',
          make_device-steps c d d' s m n e f g h made made' accepted accepted' sent sent',
          i'',
          rw append_assoc at o'',
        )

ports-Carries : (m n : ℕ) → All Carries (port_packet m ∷ port_packet n ∷ [])
ports-Carries m n = (
  make_packet-Carries (number PacketType.port) 1 (to_string m) (omega arith) (omega arith)
      (to_string-IsSendable m),
  (
    make_packet-Carries (number PacketType.port) 1 (to_string n) (omega arith) (omega arith)
        (to_string-IsSendable n),
    tt,
  ),
)

module _ (P Q : Platform) (p_sound : IsPlatform P) (q_sound : IsPlatform Q) (N : Sockets) where
  -- End to end over the sockets of two hosts with any byte orders and kernels that are reliable:
  -- if the four calls with which the constructor of `Device` makes its two sockets and accepts on
  -- them succeed, the sockets get ports of 16 bits, the client's name has 1 to 2048 bytes, the
  -- server's connection has nothing left to read and nothing sent, and the client's connection is
  -- one on which a given list of bytes can be read and nothing has been sent, then the constructor
  -- of `Device` returns with the two accepted descriptors, and with the bytes that it has put on
  -- its socket as those to be read by the client, the constructor of `Client` reads the port of
  -- the push socket first and that of the watcher's socket second.
  pub ports-agree :
      (c : P.kernel.Conn) (server : List ℕ) (s : N.State) (m n : ℕ) (e f g h : Endpoint N)
      (wired : List ℕ → Q.kernel.Conn) (client client_name : List ℕ)
      → create_and_setup_socket N (record { sockets = s; socket_fd = none }) ≡ ok m e
      → create_and_setup_socket N (record { sockets = e.sockets; socket_fd = none }) ≡ ok n f
      → accept_connection N (record { sockets = f.sockets; socket_fd = e.socket_fd }) ≡ ok tt g
      → accept_connection N (record { sockets = g.sockets; socket_fd = f.socket_fd }) ≡ ok tt h
      → m < 2 ^ 16
      → n < 2 ^ 16
      → IsSendable client_name
      → p_sound.up.incoming c ≡ []
      → p_sound.up.outgoing c ≡ []
      → ((bs : List ℕ) → q_sound.up.incoming (wired bs) ≡ bs)
      → ((bs : List ℕ) → q_sound.up.outgoing (wired bs) ≡ [])
      → (d : Manager P) × (c' : P.kernel.Conn) × (k : Manager Q) × (make_device
            (socket_channel P)
            N
            (arriving (socket_channel P) N (connected P c server) s)
          ≡ ok tt
              (record { conn = d; sockets = h.sockets; push = g.socket_fd; watcher = h.socket_fd }))
        × (d.socket ≡ some c')
        × (shake_hands
              (socket_channel Q)
              client_name
              (connected Q (wired (p_sound.up.outgoing c')) client)
            ≡ ok (positive m, positive n) k)
  ports-agree c server s m n e f g h wired client client_name made made' accepted accepted' hm hn
        fits i o wi wo =
      let (d, told, i', o') =
        make_device-tells (socket_channel P) N (socket_channel-IsChannel P p_sound)
          (connected P c server) s [] [] m n e f g h made made' accepted accepted' (i, tt) o in
      let (c', opened, arrived) =
        delivered P Q p_sound q_sound wired wi d.socket (port_packet m ∷ port_packet n ∷ [])
          (ports-Carries m n) o' in
      let (k, read, i'', o'') =
        shake_hands-reads (socket_channel Q) (socket_channel-IsChannel Q q_sound) client_name m n
          (connected Q (wired (p_sound.up.outgoing c')) client) [] [] fits (omega arith)
          (omega arith) arrived (wo (p_sound.up.outgoing c')) in
      (d, c', k, told, opened, read)
