-- ===== src/Server/Run/Registry.antt =====
-- The clients that `run` registers against those whose connections and backups it deals with.
use so2_final.Base.{
  ℕ, ◌≡◌, refl, ◌∙◌, inl, inr, Option, some, List, [], ◌∷◌, ◌++◌, map, codes, ◌==◌, Result, ok, err,
  hang, All, All-append, Option-cases, Bool-cases, Result-cases,
}
use so2_final.Network.Packet.{Packet, PacketType, number}
use so2_final.Network.Channel.{Channel}
use so2_final.Network.Sockets.{Sockets}
use so2_final.Files.System.{FileSystem}
use so2_final.Device.Text.{c_string, until_zero}
use so2_final.Server.{Client, State, leading, client_exists, register, new_client}
use so2_final.Server.Peers.{IsMade}
use so2_final.ClientManager.{make_client_files}
use so2_final.Server.Clients.{
  IsDistinct, register-IsDistinct, client_exists-register, client_exists-append,
}
use so2_final.Server.Run.{
  Hub, Round, announce_all, tell_peers, welcome, serve_client, accept_packet, serve_connection, run,
}

register-IsMade :
    (state : State) (username : List ℕ) (cs : List Client)
    → All IsMade cs
    → All IsMade (register state username cs)
unfolding register
register-IsMade state username cs h = elim (Option-cases (client_exists username cs)) [
  | inl fresh ↦
      rw (fresh, register) (All-append IsMade cs (new_client state username ∷ []) h (refl, tt))
  | inr (c, known) ↦ rw (known, register) h
]

-- A client of that name is registered.
abbrev pub IsKnown : List Client → List ℕ → Type 0
IsKnown cs name = (c : Client) × (client_exists name cs ≡ some c)

register-IsKnown :
    (state : State) (username : List ℕ) (cs : List Client)
    → IsKnown (register state username cs) username
register-IsKnown state username cs = elim (Option-cases (client_exists username cs)) [
  | inl fresh ↦
      (new_client state username, client_exists-register state username cs ∙ rw fresh refl)
  | inr (c, known) ↦ (c, client_exists-register state username cs ∙ rw known refl)
]

IsKnown-register :
    (state : State) (username name : List ℕ) (cs : List Client)
    → IsKnown cs name
    → IsKnown (register state username cs) name
unfolding register
IsKnown-register state username name cs (c, e) = elim (Option-cases (client_exists username cs)) [
  | inl fresh ↦ (
    c,
    rw (fresh, register) (client_exists-append name cs (new_client state username) ∙ rw e refl),
  )
  | inr (d, known) ↦ (c, rw (known, register) e)
]

All-IsKnown-register :
    {A : Type 0} (name_of : A → List ℕ) (state : State) (username : List ℕ) (cs : List Client)
    (xs : List A)
    → All (λ x. IsKnown cs (name_of x)) xs
    → All (λ x. IsKnown (register state username cs) (name_of x)) xs
All-IsKnown-register name_of state username cs [] h = tt
All-IsKnown-register name_of state username cs (x ∷ xs) h = (
  IsKnown-register state username (name_of x) cs h.0,
  All-IsKnown-register name_of state username cs xs h.1,
)

All-backups :
    (cs : List Client) (name : List ℕ) (fds : List (Option ℕ))
    → IsKnown cs name
    → All {A = List ℕ × Option ℕ} (λ b. IsKnown cs b.0) (map (λ fd. (name, fd)) fds)
All-backups cs name [] h = tt
All-backups cs name (fd ∷ fds) h = (h, All-backups cs name fds h)

module _ (C : Channel) (N : Sockets) (F : FileSystem) where
  -- No username is registered twice, no client has a network manager, and every connection that
  -- was delivered and every backup that was added is for a client that is registered.
  pub record IsHub (h : Hub C N F) : Type 0 where
    pub distinct : IsDistinct h.server.clients
    pub unaddressed : All IsMade h.server.clients
    pub delivered : All (IsKnown h.server.clients) h.handlers
    pub backed : All (λ b. IsKnown h.server.clients b.0) h.backups

  -- The state in which a call returns or throws satisfies the invariant.
  abbrev pub Keeps : Result (Hub C N F) (Unit {0}) → Type 0
  Keeps (ok u h) = IsHub h
  Keeps (err x h) = IsHub h
  Keeps (hang w) = Unit {0}

  abbrev Welcomes : List ℕ → Result (Hub C N F) (Unit {0}) → Type 0
  Welcomes name (ok u h) = IsHub h × IsKnown h.server.clients name
  Welcomes name (err x h) = IsHub h
  Welcomes name (hang w) = Unit {0}

  registered-IsHub :
      (name : List ℕ) (h : Hub C N F) (g : F.State) (s : N.State) (peers : List C.Conn)
      (fds : List (Option ℕ))
      → IsHub h
      → IsHub (record {
        server = record (h.server) { clients = register leading name h.server.clients };
        files = g;
        sockets = s;
        peers = peers;
        backups = h.backups ++ map (λ fd. (name, fd)) fds;
        handlers = h.handlers;
      })
  registered-IsHub name h g s peers fds v =
      let cs = register leading name h.server.clients in
      record {
        distinct = register-IsDistinct leading name h.server.clients v.distinct;
        unaddressed = register-IsMade leading name h.server.clients v.unaddressed;
        delivered =
            All-IsKnown-register (λ n. n) leading name h.server.clients h.handlers v.delivered;
        backed =
            All-append (λ (b : List ℕ × Option ℕ). IsKnown cs b.0) h.backups
              (map (λ fd. (name, fd)) fds)
              (All-IsKnown-register {A = List ℕ × Option ℕ} (λ b. b.0) leading name h.server.clients
                h.backups v.backed)
              (All-backups cs name fds (register-IsKnown leading name h.server.clients));
      }

  tell_peers-Welcomes :
      (name : List ℕ) (h : Hub C N F) → IsHub h → Welcomes name (tell_peers C N F name h)
  unfolding tell_peers
  tell_peers-Welcomes name h v =
      let start : Round C N = record { sockets = h.sockets; told = []; made = [] } in
      elim (Result-cases (announce_all C N h.peers (codes "CLIENT_CONNECTION " ++ name) start)) [
        | inl (u, r, e) ↦
            rw (e, Welcomes)
              (
                registered-IsHub name h h.files r.sockets _ r.made v,
                register-IsKnown leading name h.server.clients,
              )
        | inr (inl (x, r, e)) ↦
            rw (e, Welcomes) (registered-IsHub name h h.files r.sockets _ r.made v)
        | inr (inr (w, e)) ↦ rw (e, Welcomes) tt
      ]

  with_files-IsHub : (h : Hub C N F) (g : F.State) → IsHub h → IsHub (record h { files = g })
  with_files-IsHub h g v = record {
    distinct = v.distinct;
    unaddressed = v.unaddressed;
    delivered = v.delivered;
    backed = v.backed;
  }

  welcome-Welcomes :
      (name : List ℕ) (h : Hub C N F) → IsHub h → Welcomes name (welcome C N F name h)
  unfolding welcome
  welcome-Welcomes name h v = elim (Result-cases (make_client_files F name h.files)) [
    | inl (f, g, e) ↦
        rw (e, Welcomes)
          (tell_peers-Welcomes name (record h { files = g }) (with_files-IsHub h g v))
    | inr (inl (x, g, e)) ↦ rw (e, Welcomes) (with_files-IsHub h g v)
    | inr (inr (w, e)) ↦ rw (e, Welcomes) tt
  ]

  delivered-IsHub :
      (name : List ℕ) (h : Hub C N F)
      → IsHub h
      → IsKnown h.server.clients name
      → IsHub (record h { handlers = h.handlers ++ (name ∷ []) })
  delivered-IsHub name h v k = record {
    distinct = v.distinct;
    unaddressed = v.unaddressed;
    delivered = All-append (IsKnown h.server.clients) h.handlers (name ∷ []) v.delivered (k, tt);
    backed = v.backed;
  }

  serve_client-Keeps : (name : List ℕ) (h : Hub C N F) → IsHub h → Keeps (serve_client C N F name h)
  unfolding serve_client
  serve_client-Keeps name h v = elim (Option-cases (client_exists name h.server.clients)) [
    | inr (c, known) ↦ rw (known, Keeps) (delivered-IsHub name h v (c, known))
    | inl fresh ↦
        let w = welcome-Welcomes name h v in
        elim (Result-cases (welcome C N F name h)) [
          | inl (u, h', e) ↦
              let (v', k) = rw (e, Welcomes) at w in
              rw (fresh, Keeps) (rw e (delivered-IsHub name h' v' k))
          | inr (inl (x, h', e)) ↦ let v' = rw (e, Welcomes) at w in rw (fresh, Keeps) (rw e v')
          | inr (inr (w, e)) ↦ rw (fresh, Keeps) (rw e tt)
        ]
  ]

  accept_packet-Keeps :
      (c : C.Conn) (p : Packet) (h : Hub C N F) → IsHub h → Keeps (accept_packet C N F c p h)
  unfolding accept_packet c_string
  accept_packet-Keeps c p h v = elim (Bool-cases (p.kind == number PacketType.client)) [
    | inl joins ↦ elim (Option-cases p.payload) [
      | inl missing ↦ rw (joins, Keeps) (rw missing v)
      | inr (text, carried) ↦
          rw (joins, Keeps) (rw carried (serve_client-Keeps (until_zero text) h v))
    ]
    | inr other ↦ elim (Bool-cases (p.kind == number PacketType.peer)) [
      | inl peers ↦
          rw (other, Keeps)
            (rw peers (record {
              distinct = v.distinct;
              unaddressed = v.unaddressed;
              delivered = v.delivered;
              backed = v.backed;
            }))
      | inr none_of_them ↦ rw (other, Keeps) (rw none_of_them v)
    ]
  ]

  serve_connection-Keeps :
      (c : C.Conn) (h : Hub C N F) → IsHub h → Keeps (serve_connection C N F c h)
  unfolding serve_connection
  serve_connection-Keeps c h v = elim (Result-cases (C.receive c)) [
    | inl (p, c', e) ↦ rw (e, Keeps) (accept_packet-Keeps c' p h v)
    | inr (inl (x, c', e)) ↦ rw (e, Keeps) v
    | inr (inr (w, e)) ↦ rw (e, Keeps) tt
  ]

  pub run-IsHub : (cs : List C.Conn) (h : Hub C N F) → IsHub h → Keeps (run C N F cs h)
  unfolding run
  run-IsHub [] h v = v
  run-IsHub (c ∷ cs) h v =
      let w = serve_connection-Keeps c h v in
      elim (Result-cases (serve_connection C N F c h)) [
        | inl (u, h', e) ↦ let v' = rw (e, Keeps) at w in rw (e, Keeps) (run-IsHub cs h' v')
        | inr (inl (x, h', e)) ↦ let v' = rw (e, Keeps) at w in rw (e, Keeps) v'
        | inr (inr (w, e)) ↦ rw (e, Keeps) tt
      ]
