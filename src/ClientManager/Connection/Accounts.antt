-- ===== src/ClientManager/Connection/Accounts.antt =====
-- The descriptors that a device leaves open.
use mathlib.Core.Option.{some-injective}
use so2_final.Base.{
  Silence, codes, ℕ, ◌≤◌, sym, subst, ◌+◌, ◌<◌, ◌≡◌, ◌≢◌, ◌⊎◌, refl, ap, ◌∙◌, none, some, List, [],
  ◌∷◌, ◌++◌, ◌==◌, inl, inr, Result, Bool-cases, ok, err, hang, ◌>>◌, arith, if◌then◌else◌, ==_refl,
}
use so2_final.Network.Packet.{PacketType}
use so2_final.Network.Channel.{Channel, send_text}
use so2_final.Network.Sockets.{Sockets, IsSockets}
use so2_final.Network.Setup.{Endpoint, close_connection}
use so2_final.Network.Setup.Balance.{IsOpen, count, held, close_connection-Balances, count-remove}
use so2_final.Device.Arrival.{Arrival, on_command, make_device}
use so2_final.Device.Arrival.Balance.{Owns, Leaves, Anything, make_device-Leaves}
use so2_final.ClientManager.Limit.{is_full}
use so2_final.ClientManager.Connection.{
  Door, refuse, admit, on_arrival, with_sockets, close_manager, handle_new_connection,
  stop_connections, dismiss_device,
}

-- What is open counts one at least.
count-live : (x y : ℕ) (ds : List ℕ) → 0 < count y ds → count x (y ∷ []) ≤ count x ds
count-live x y ds live = elim (Bool-cases (y == x)) [
  | inl same ↦
      let alike : y ≡ x = ground arith in
      let live' : 0 < count x ds = subst (λ z. 0 < count z ds) alike live in
      rw same (omega (arith, live'))
  | inr other ↦ rw other (omega arith)
]

count_self : (y : ℕ) → count y (y ∷ []) ≡ 1
count_self y = rw (==_refl y) refl

module _ (C : Channel) (N : Sockets) (L : IsSockets N) where
  -- The descriptors that are open.
  abbrev pub opened : Door C N → List ℕ
  opened d = L.opened d.arrival.sockets

  -- If the device is registered, then its removal closes all that was opened for it, and the
  -- connection. If it is not, then the connection is closed, and what its two managers hold is
  -- open still.
  abbrev pub Accounts : ℕ → Door C N → Result (Door C N) (Unit {0}) → Type 0
  Accounts device d (ok u d') =
      ((d'.devices ≡ d.devices ++ (device ∷ []))
        × ((x : ℕ)
            → count x (opened (dismiss_device C N device d')) + count x (d.socket ∷ [])
              ≡ count x (opened d)))
      ⊎ ((d'.devices ≡ d.devices)
          × ((x : ℕ)
              → count x (opened d') + count x (d.socket ∷ [])
                ≡ count x (opened d)
                  + (count x (held d'.arrival.push) + count x (held d'.arrival.watcher))))
  Accounts device d (err x d') = ⊥
  Accounts device d (hang w) = ⊥

  closes :
      (x fd : ℕ) (s : N.State)
      → 0 < count fd (L.opened s)
      → count x (L.opened (N.close s fd)) + count x (fd ∷ []) ≡ count x (L.opened s)
  closes x fd s live =
      ap (λ ds. count x ds + count x (fd ∷ [])) (L.close-opened s fd)
      ∙ count-remove x fd (L.opened s) live

  IsOpen-live :
      (fd : ℕ) (s : N.State)
      → 0 < count fd (L.opened s)
      → IsOpen N L (record { sockets = s; socket_fd = some fd })
  IsOpen-live fd s live x e = subst (λ y. 0 < count y (L.opened s)) (some-injective fd x e) live

  -- The three connections of a device are closed.
  stop_connections-closes :
      (d : Door C N) (ds : List ℕ)
      → Owns C N L ds d.arrival
      → 0 < count d.socket ds
      → (x : ℕ) → count x (opened (stop_connections C N d)) + count x (d.socket ∷ []) ≡ count x ds
  unfolding stop_connections
  stop_connections-closes d ds o live x =
      let s1 = close_manager C N d.socket d.arrival.sockets in
      let push : Endpoint N = record { sockets = s1; socket_fd = d.arrival.push } in
      let watcher : Endpoint N = record {
        sockets = (close_connection N push).sockets;
        socket_fd = d.arrival.watcher;
      } in
      let first : (y : ℕ)
          → count y (L.opened s1) + count y (d.socket ∷ []) ≡ count y (L.opened d.arrival.sockets) =
        close_connection-Balances N L
          (record { sockets = d.arrival.sockets; socket_fd = some d.socket })
          (IsOpen-live d.socket d.arrival.sockets (omega (arith, o d.socket, live))) in
      let push_live : IsOpen N L push = λ fd e.
        let one : count fd (held d.arrival.push) ≡ 1 =
          ap (λ h. count fd (held h)) e ∙ count_self fd in
        omega (arith, o fd, one, first fd, count-live fd d.socket ds live) in
      let second : (y : ℕ)
          → count y (L.opened (close_connection N push).sockets) + count y (held d.arrival.push)
            ≡ count y (L.opened s1) =
        close_connection-Balances N L push push_live in
      let watcher_live : IsOpen N L watcher = λ fd e.
        let one : count fd (held d.arrival.watcher) ≡ 1 =
          ap (λ h. count fd (held h)) e ∙ count_self fd in
        omega (arith, o fd, one, first fd, second fd, count-live fd d.socket ds live) in
      omega (arith, o x, first x, second x, close_connection-Balances N L watcher watcher_live x)

  -- What becomes of the connection when the handler's call is over.
  abbrev caught : Result (Door C N) (Unit {0}) → Result (Door C N) (Unit {0})
  caught (ok u d) = ok tt d
  caught (err x d) = ok tt (with_sockets C N d (N.close d.arrival.sockets d.socket))
  caught (hang w) = hang w

  admitted-Accounts :
      (device : ℕ) (d : Door C N) (r : Result (Arrival C N) (Unit {0}))
      → 0 < count d.socket (opened d)
      → Leaves C N L (opened d) (Anything C N L (opened d)) r
      → Accounts device d (
          caught (
            (on_arrival C N (λ _. r)
                >> (λ e. ok tt (record e { devices = e.devices ++ (device ∷ []) })))
              d))
  unfolding dismiss_device
  admitted-Accounts device d (ok u a) live (p, o) = inl (
    refl,
    stop_connections-closes (record d { arrival = a; devices = d.devices ++ (device ∷ []) })
        (opened d) o live,
  )
  admitted-Accounts device d (err y a) live o =
      let live' : 0 < count d.socket (L.opened a.sockets) = omega (arith, o d.socket, live) in
      inr (refl, λ x. closes x d.socket a.sockets live' ∙ o x)
  admitted-Accounts device d (hang w) live h = h

  refused-Accounts :
      (device : ℕ) (d : Door C N) (r : Result C.Conn (Unit {0}))
      → d.arrival.push ≡ none
      → d.arrival.watcher ≡ none
      → 0 < count d.socket (opened d)
      → ((w : Silence) → r ≢ hang w)
      → Accounts device d (
          caught (
            (on_arrival C N (on_command C N (λ _. r))
                >> (λ e. ok tt (with_sockets C N e (close_manager C N e.socket e.arrival.sockets))))
              d))
  refused-Accounts device d (ok u c) idle fresh live sent = inr (
    refl,
    λ x.
        rw (idle, fresh)
          (close_connection-Balances N L
              (record { sockets = d.arrival.sockets; socket_fd = some d.socket })
              (IsOpen-live d.socket d.arrival.sockets live) x
            ∙ omega arith),
  )
  refused-Accounts device d (err y c) idle fresh live sent =
      inr (refl, λ x. rw (idle, fresh) (closes x d.socket d.arrival.sockets live ∙ omega arith))
  refused-Accounts device d (hang w) idle fresh live sent = absurd (sent w refl)

  module _
      (sends : (t : PacketType) (n : ℕ) (text : List ℕ) (c : C.Conn) (w : Silence)
        → send_text C t n text c ≢ hang w) where
    -- With system calls that open and close descriptors as documented, whichever of them and of
    -- the packets to the client fails, if no call that sends hangs, the connection's descriptor is
    -- open, and the device's other managers have none yet, then `handle_new_connection` gets to
    -- the start of the threads or returns, with one of two outcomes. Either the device is
    -- registered behind the others, and from there `removeDevice` closes the connection and
    -- everything that was opened for the device. Or the devices are as before, the connection is
    -- closed, and exactly what the device's push manager and watcher manager then hold is open
    -- beside what was open before.
    pub handle_new_connection-Accounts :
        (device : ℕ) (d : Door C N)
        → d.arrival.push ≡ none
        → d.arrival.watcher ≡ none
        → 0 < count d.socket (opened d)
        → Accounts device d (handle_new_connection C N device d)
    unfolding handle_new_connection refuse admit
    handle_new_connection-Accounts device d idle fresh live =
        let owns : Owns C N L (opened d) d.arrival = λ x. rw (idle, fresh) (omega arith) in
        elim (Bool-cases (is_full d.devices)) [
          | inl full ↦
              subst
                (λ b. Accounts device d (caught ((if b then refuse C N else admit C N device) d)))
                (sym full)
                (refused-Accounts device d
                  (send_text C PacketType.error 0 (codes "Limite de dispositivos atingido")
                    d.arrival.conn)
                  idle fresh live
                  (sends PacketType.error 0 (codes "Limite de dispositivos atingido")
                    d.arrival.conn))
          | inr room ↦
              subst
                (λ b. Accounts device d (caught ((if b then refuse C N else admit C N device) d)))
                (sym room)
                (admitted-Accounts device d (make_device C N d.arrival) live
                  (make_device-Leaves C N L (opened d) sends d.arrival idle fresh owns))
        ]
