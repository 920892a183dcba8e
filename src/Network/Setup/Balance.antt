-- ===== src/Network/Setup/Balance.antt =====
-- How many descriptors are open, against those that the managers hold.
use so2_final.Base.{
  ℕ, suc, ◌+◌, ◌<◌, ◌≡◌, refl, ap, ◌∙◌, Option, none, some, List, [], ◌∷◌, inl, inr, Result, ok,
  err, hang, ◌==◌, if◌then◌else◌, Option-cases, arith,
}
use so2_final.Network.Sockets.{Sockets, IsSockets, remove}
use so2_final.Network.Setup.{
  Endpoint, create_and_setup_socket, accept_on, accept_connection, close_connection,
}
use so2_final.Network.Setup.Descriptors.{SetsUp, create_and_setup_socket-SetsUp}

-- How often a descriptor is in a list.
abbrev pub count : ℕ → List ℕ → ℕ
count x [] = 0
count x (d ∷ ds) = let rest = count x ds in if d == x then suc rest else rest

abbrev pub held : Option ℕ → List ℕ
held none = []
held (some fd) = fd ∷ []

pub count-remove :
    (x fd : ℕ) (ds : List ℕ)
    → 0 < count fd ds
    → count x (remove fd ds) + count x (fd ∷ []) ≡ count x ds
count-remove x fd [] h = absurd (omega arith)
count-remove x fd (d ∷ ds) h = ground (arith, count-remove x fd ds)

count-cons : (x fd : ℕ) (ds : List ℕ) → count x (fd ∷ ds) ≡ count x ds + count x (fd ∷ [])
count-cons x fd ds = ground arith

module _ (N : Sockets) (L : IsSockets N) where
  -- A call returns or throws; what is opened more than before, its manager holds more.
  abbrev pub Balances {ℓ} : {A : Type ℓ} → Endpoint N → Result (Endpoint N) A → Type 0
  Balances e (ok a e') =
      (x : ℕ)
      → count x (L.opened e'.sockets) + count x (held e.socket_fd)
        ≡ count x (L.opened e.sockets) + count x (held e'.socket_fd)
  Balances e (err y e') =
      (x : ℕ)
      → count x (L.opened e'.sockets) + count x (held e.socket_fd)
        ≡ count x (L.opened e.sockets) + count x (held e'.socket_fd)
  Balances e (hang w) = ⊥

  -- What the manager holds is open.
  abbrev pub IsOpen : Endpoint N → Type 0
  IsOpen e = (fd : ℕ) → e.socket_fd ≡ some fd → 0 < count fd (L.opened e.sockets)

  SetsUp-Balances :
      (s : N.State) (r : Result (Endpoint N) ℕ)
      → SetsUp N L none (L.opened s) r
      → Balances (record { sockets = s; socket_fd = none }) r
  SetsUp-Balances s (ok port e) (fd, holds, now) =
      λ x. rw (now, holds) (omega (arith, count-cons x fd (L.opened s)))
  SetsUp-Balances s (err y e) (holds, now) = λ x. rw (now, holds) refl
  SetsUp-Balances s (hang w) h = h

  pub create_and_setup_socket-Balances :
      (s : N.State)
      → let e : Endpoint N = record { sockets = s; socket_fd = none } in
        Balances e (create_and_setup_socket N e)
  create_and_setup_socket-Balances s =
      let e : Endpoint N = record { sockets = s; socket_fd = none } in
      SetsUp-Balances s (create_and_setup_socket N e) (create_and_setup_socket-SetsUp N L e)

  accept_on-Balances :
      (fd : ℕ) (s : N.State)
      → 0 < count fd (L.opened s)
      → let e : Endpoint N = record { sockets = s; socket_fd = some fd } in
        Balances e (accept_on N fd e)
  unfolding accept_on
  accept_on-Balances fd s h =
      let t = (N.accept s fd).1 in
      elim (Option-cases (N.accept s fd).0) [
        | inl refused ↦
            rw (refused, Balances)
              (λ x.
                ap (λ ds. count x ds + count x (fd ∷ []))
                  (L.accept-failed s t fd (ap (λ r. (r, t)) refused)))
        | inr (d, accepted) ↦
            let now : L.opened t ≡ d ∷ L.opened s =
              L.accept-opened s t fd d (ap (λ r. (r, t)) accepted) in
            let among : 0 < count fd (d ∷ L.opened s) =
              omega (arith, h, count-cons fd d (L.opened s)) in
            rw (accepted, Balances)
              (λ x.
                ap (λ ds. count x ds + count x (fd ∷ [])) (L.close-opened t fd ∙ ap (remove fd) now)
                ∙ count-remove x fd (d ∷ L.opened s) among
                ∙ count-cons x d (L.opened s))
      ]

  accept_from-Balances :
      (s : N.State) (fd : Option ℕ)
      → let e : Endpoint N = record { sockets = s; socket_fd = fd } in
        IsOpen e → Balances e (accept_connection N e)
  unfolding accept_connection
  accept_from-Balances s none owned = λ x. refl
  accept_from-Balances s (some fd) owned = elim (Option-cases (N.port_of s fd)) [
    | inl unnamed ↦ rw (unnamed, Balances) (λ x. refl)
    | inr (port, named) ↦ rw (named, Balances) (accept_on-Balances fd s (owned fd refl))
  ]

  pub accept_connection-Balances : (e : Endpoint N) → IsOpen e → Balances e (accept_connection N e)
  accept_connection-Balances e owned = accept_from-Balances e.sockets e.socket_fd owned

  -- `closeConnection` closes what the manager holds.
  close_from-Balances :
      (s : N.State) (fd : Option ℕ)
      → let e : Endpoint N = record { sockets = s; socket_fd = fd } in
        IsOpen e
        → (x : ℕ)
        → count x (L.opened (close_connection N e).sockets) + count x (held fd)
          ≡ count x (L.opened s)
  unfolding close_connection
  close_from-Balances s none owned x = omega arith
  close_from-Balances s (some fd) owned x =
      ap (λ ds. count x ds + count x (fd ∷ []))
        (L.close-opened (N.shutdown s fd) fd ∙ ap (remove fd) (L.shutdown-opened s fd))
      ∙ count-remove x fd (L.opened s) (owned fd refl)

  pub close_connection-Balances :
      (e : Endpoint N)
      → IsOpen e
      → (x : ℕ)
      → count x (L.opened (close_connection N e).sockets) + count x (held e.socket_fd)
        ≡ count x (L.opened e.sockets)
  close_connection-Balances e owned = close_from-Balances e.sockets e.socket_fd owned
