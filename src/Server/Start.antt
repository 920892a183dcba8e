-- ===== src/Server/Start.antt =====
-- The main socket of `Server`: `createMainSocket`, and the call of `listen` at the start of `run`.
pub mod Making
use so2_final.Base.{
  ℕ, ◌%◌, ◌^◌, ◌≡◌, refl, ap, subst, ◌∙◌, Option, none, some, List, ◌∷◌, if◌then◌else◌, Bool-cases,
  inl, inr,
}
use so2_final.Network.Sockets.{Sockets, IsSockets}

module _ (N : Sockets) where
  -- A failure ends the process: `none`.
  bind_main_socket : ℕ → ℕ → N.State → Option ℕ × N.State
  bind_main_socket port fd s =
      let (bound, s') = N.bind_port s fd (port % 2 ^ 16) in
      if bound then (some fd, s') else (none, s')

  reuse_main_socket : ℕ → ℕ → N.State → Option ℕ × N.State
  unfolding bind_main_socket
  reuse_main_socket port fd s =
      let (set, s') = N.reuse_address s fd in
      if set then bind_main_socket port fd s' else (none, N.close s' fd)

  unfoldable pub create_main_socket : ℕ → N.State → Option ℕ × N.State
  unfolding reuse_main_socket
  create_main_socket port s =
      let (fd, s') = N.socket s in
      elim fd [ none ↦ (none, s') | some d ↦ reuse_main_socket port d s' ]

  listen_main_socket : ℕ → N.State → Option ℕ × N.State
  listen_main_socket fd s =
      let (listens, s') = N.listen s fd 5 in if listens then (some fd, s') else (none, s')

  -- A leader, up to the loop of `run`.
  unfoldable pub start_server : ℕ → N.State → Option ℕ × N.State
  unfolding create_main_socket listen_main_socket
  start_server port s =
      let (fd, s') = create_main_socket port s in
      elim fd [ none ↦ (none, s') | some d ↦ listen_main_socket d s' ]

  module _ (L : IsSockets N) where
    -- Unless the process ends, the main socket is the one descriptor more that is open.
    abbrev pub Starts : List ℕ → Option ℕ × N.State → Type 0
    Starts ds (none, s) = Unit {0}
    Starts ds (some fd, s) = L.opened s ≡ fd ∷ ds

    bind_main_socket-Starts :
        (ds : List ℕ) (port fd : ℕ) (s : N.State)
        → L.opened s ≡ fd ∷ ds
        → Starts ds (bind_main_socket port fd s)
    unfolding bind_main_socket
    bind_main_socket-Starts ds port fd s h =
        elim (Bool-cases (N.bind_port s fd (port % 2 ^ 16)).0) [
          | inl bound ↦ rw (bound, Starts) (L.bind_port-opened s fd (port % 2 ^ 16) ∙ h)
          | inr unbound ↦ rw (unbound, Starts) tt
        ]

    reuse_main_socket-Starts :
        (ds : List ℕ) (port fd : ℕ) (s : N.State)
        → L.opened s ≡ fd ∷ ds
        → Starts ds (reuse_main_socket port fd s)
    unfolding reuse_main_socket
    reuse_main_socket-Starts ds port fd s h = elim (Bool-cases (N.reuse_address s fd).0) [
      | inl set ↦
          rw (set, Starts)
            (bind_main_socket-Starts ds port fd (N.reuse_address s fd).1
              (L.reuse_address-opened s fd ∙ h))
      | inr unset ↦ rw (unset, Starts) tt
    ]

    -- A step that goes on from a descriptor, if there is one.
    then-Starts :
        (ds : List ℕ) (fd : Option ℕ) (s : N.State) (call : ℕ → N.State → Option ℕ × N.State)
        → ((d : ℕ) → fd ≡ some d → Starts ds (call d s))
        → Starts ds (elim fd as (λ _. Option ℕ × N.State) [ none ↦ (none, s) | some d ↦ call d s ])
    then-Starts ds none s call h = tt
    then-Starts ds (some d) s call h = h d refl

    pub create_main_socket-Starts :
        (port : ℕ) (s : N.State) → Starts (L.opened s) (create_main_socket port s)
    unfolding create_main_socket
    create_main_socket-Starts port s =
        let s' = (N.socket s).1 in
        then-Starts (L.opened s) (N.socket s).0 s' (reuse_main_socket port) (λ d made.
          reuse_main_socket-Starts (L.opened s) port d s'
            (L.socket-opened s s' d (ap (λ r. (r, s')) made)))

    listen_main_socket-Starts :
        (ds : List ℕ) (fd : ℕ) (s : N.State)
        → L.opened s ≡ fd ∷ ds
        → Starts ds (listen_main_socket fd s)
    unfolding listen_main_socket
    listen_main_socket-Starts ds fd s h = elim (Bool-cases (N.listen s fd 5).0) [
      | inl listens ↦ rw (listens, Starts) (L.listen-opened s fd 5 ∙ h)
      | inr deaf ↦ rw (deaf, Starts) tt
    ]

    -- A server that starts has one descriptor more open than before, its main socket.
    pub start_server-Starts : (port : ℕ) (s : N.State) → Starts (L.opened s) (start_server port s)
    unfolding start_server
    start_server-Starts port s =
        let c = create_main_socket-Starts port s in
        let s' = (create_main_socket port s).1 in
        then-Starts (L.opened s) (create_main_socket port s).0 s' listen_main_socket (λ d made.
          listen_main_socket-Starts (L.opened s) d s'
            (subst (λ o. Starts (L.opened s) (o, s')) made c))
