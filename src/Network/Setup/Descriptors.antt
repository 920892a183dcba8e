-- ===== src/Network/Setup/Descriptors.antt =====
-- Which descriptors stay open, on every path of the functions that make sockets.
use so2_final.Base.{
  ℕ, ◌≡◌, refl, subst, ap, ◌∙◌, Option, none, some, List, ◌∷◌, ◌⊎◌, inl, inr, Result, ok, err, hang,
  ==_refl, socket_initialized, Bool-cases, Option-cases,
}
use so2_final.Network.Sockets.{Sockets, IsSockets, remove}
use so2_final.Network.Setup.{
  Endpoint, name_socket, listen_socket, bind_socket, create_and_setup_socket, connect_on,
  connect_to, close_connection,
}

remove-head : (fd : ℕ) (ds : List ℕ) → remove fd (fd ∷ ds) ≡ ds
remove-head fd ds = rw (==_refl fd)

module _ (N : Sockets) (L : IsSockets N) where
  -- A call that makes a listening socket: it succeeds with one more descriptor open, which the
  -- manager then holds, or it throws with those open that were before, and the manager's own.
  abbrev pub SetsUp : Option ℕ → List ℕ → Result (Endpoint N) ℕ → Type 0
  SetsUp held ds (ok port e) = (fd : ℕ) × (e.socket_fd ≡ some fd) × (L.opened e.sockets ≡ fd ∷ ds)
  SetsUp held ds (err x e) = (e.socket_fd ≡ held) × (L.opened e.sockets ≡ ds)
  SetsUp held ds (hang w) = ⊥

  closed :
      (s : N.State) (fd : ℕ) (ds : List ℕ) → L.opened s ≡ fd ∷ ds → L.opened (N.close s fd) ≡ ds
  closed s fd ds h = L.close-opened s fd ∙ rw h (remove-head fd ds)

  name_socket-SetsUp :
      (fd : ℕ) (ds : List ℕ) (e : Endpoint N)
      → L.opened e.sockets ≡ fd ∷ ds
      → SetsUp e.socket_fd ds (name_socket N fd e)
  unfolding name_socket
  name_socket-SetsUp fd ds e h = elim (Option-cases (N.port_of e.sockets fd)) [
    | inl unnamed ↦ rw (unnamed, SetsUp) (refl, closed e.sockets fd ds h)
    | inr (port, named) ↦ rw (named, SetsUp) (fd, refl, h)
  ]

  listen_socket-SetsUp :
      (fd : ℕ) (ds : List ℕ) (e : Endpoint N)
      → L.opened e.sockets ≡ fd ∷ ds
      → SetsUp e.socket_fd ds (listen_socket N fd e)
  unfolding listen_socket
  listen_socket-SetsUp fd ds e h =
      let s = (N.listen e.sockets fd 1).1 in
      let still = L.listen-opened e.sockets fd 1 ∙ h in
      elim (Bool-cases (N.listen e.sockets fd 1).0) [
        | inl listens ↦ rw listens (name_socket-SetsUp fd ds (record e { sockets = s }) still)
        | inr deaf ↦ rw deaf (refl, closed s fd ds still)
      ]

  bind_socket-SetsUp :
      (fd : ℕ) (ds : List ℕ) (e : Endpoint N)
      → L.opened e.sockets ≡ fd ∷ ds
      → SetsUp e.socket_fd ds (bind_socket N fd e)
  unfolding bind_socket
  bind_socket-SetsUp fd ds e h =
      let s = (N.bind e.sockets fd).1 in
      let still = L.bind-opened e.sockets fd ∙ h in
      elim (Bool-cases (N.bind e.sockets fd).0) [
        | inl bound ↦ rw bound (listen_socket-SetsUp fd ds (record e { sockets = s }) still)
        | inr unbound ↦ rw unbound (refl, closed s fd ds still)
      ]

  -- With system calls that open and close descriptors as documented, `createAndSetupSocket`
  -- returns with one more descriptor open, which `socket_fd` then holds, or throws with those
  -- descriptors open that were open before and `socket_fd` as it was, whichever of its calls
  -- fails.
  pub create_and_setup_socket-SetsUp :
      (e : Endpoint N) → SetsUp e.socket_fd (L.opened e.sockets) (create_and_setup_socket N e)
  unfolding create_and_setup_socket
  create_and_setup_socket-SetsUp e =
      let s = (N.socket e.sockets).1 in
      elim (Option-cases (N.socket e.sockets).0) [
        | inl none_made ↦
            rw (none_made, SetsUp) (refl, L.socket-failed e.sockets s (ap (λ r. (r, s)) none_made))
        | inr (fd, made) ↦
            rw (made, SetsUp)
              (bind_socket-SetsUp fd (L.opened e.sockets) (record e { sockets = s })
                (L.socket-opened e.sockets s fd (ap (λ r. (r, s)) made)))
      ]

  -- A call that connects: it succeeds with one more descriptor open, which the manager then
  -- holds; or it throws with none more open, and the manager still has no descriptor, or one that
  -- is closed, with which it cannot connect any more.
  abbrev pub Connects : List ℕ → Result (Endpoint N) (Unit {0}) → Type 0
  Connects ds (ok a e) = (fd : ℕ) × (e.socket_fd ≡ some fd) × (L.opened e.sockets ≡ fd ∷ ds)
  Connects ds (err x e) =
      (L.opened e.sockets ≡ ds)
      × ((e.socket_fd ≡ none)
          ⊎ ((fd : ℕ) × (e.socket_fd ≡ some fd)
              × ((ip : List ℕ) (port : ℕ) → connect_to N ip port e ≡ err socket_initialized e)))
  Connects ds (hang w) = ⊥

  connect_to-again :
      (fd : ℕ) (s : N.State) (ip : List ℕ) (port : ℕ)
      → let e : Endpoint N = record { sockets = s; socket_fd = some fd } in
        connect_to N ip port e ≡ err socket_initialized e
  unfolding connect_to
  connect_to-again fd s ip port = refl

  connect_on-Connects :
      (fd : ℕ) (ds ip : List ℕ) (port : ℕ) (e : Endpoint N)
      → L.opened e.sockets ≡ fd ∷ ds
      → Connects ds (connect_on N ip port fd e)
  unfolding connect_on
  connect_on-Connects fd ds ip port e h = elim (Option-cases (N.inet_pton ip)) [
    | inl bad ↦
        rw (bad, Connects)
          (closed e.sockets fd ds h, inr (fd, refl, connect_to-again fd (N.close e.sockets fd)))
    | inr (a, good) ↦
        let s = (N.connect e.sockets (some fd) a port).1 in
        let still = L.connect-opened e.sockets (some fd) a port ∙ h in
        elim (Bool-cases (N.connect e.sockets (some fd) a port).0) [
          | inl connects ↦ rw (good, Connects) (rw connects (fd, refl, still))
          | inr failed ↦
              rw (good, Connects)
                (rw failed
                  (closed s fd ds still, inr (fd, refl, connect_to-again fd (N.close s fd))))
        ]
  ]

  -- With system calls that open and close descriptors as documented and without a socket so far,
  -- `connectTo` returns with one more descriptor open, which `socket_fd` then holds, or throws
  -- with those descriptors open that were open before; if it throws, `socket_fd` is still -1, or
  -- it holds a descriptor with which every later `connectTo` of any address throws that the socket
  -- is initialized.
  pub connect_to-Connects :
      (ip : List ℕ) (port : ℕ) (s : N.State)
      → Connects (L.opened s) (connect_to N ip port (record { sockets = s; socket_fd = none }))
  unfolding connect_to
  connect_to-Connects ip port s =
      let t = (N.socket s).1 in
      elim (Option-cases (N.socket s).0) [
        | inl none_made ↦
            rw (none_made, Connects) (L.socket-failed s t (ap (λ r. (r, t)) none_made), inl refl)
        | inr (fd, made) ↦
            rw (made, Connects)
              (connect_on-Connects fd (L.opened s) ip port
                (record { sockets = t; socket_fd = none })
                (L.socket-opened s t fd (ap (λ r. (r, t)) made)))
      ]

  -- On a manager that had no socket, `closeConnection` behind a `createAndSetupSocket` that
  -- returned leaves the descriptors open that were open before, and `socket_fd` at -1.
  pub close_connection-create_and_setup_socket :
      (s : N.State) (port : ℕ) (e : Endpoint N)
      → create_and_setup_socket N (record { sockets = s; socket_fd = none }) ≡ ok port e
      → ((close_connection N e).socket_fd ≡ none)
        × (L.opened (close_connection N e).sockets ≡ L.opened s)
  unfolding close_connection
  close_connection-create_and_setup_socket s port e made =
      let (fd, held, now) =
        subst (SetsUp none (L.opened s)) made
          (create_and_setup_socket-SetsUp (record { sockets = s; socket_fd = none })) in
      rw held (
        refl,
        closed (N.shutdown e.sockets fd) fd (L.opened s) (L.shutdown-opened e.sockets fd ∙ now),
      )
