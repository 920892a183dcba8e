-- ===== src/Server/Clients.antt =====
-- The list of clients holds each username once.
use so2_final.Base.{
  ℕ, ◌≡◌, refl, ◌≢◌, Option, none, some, List, [], ◌∷◌, ◌++◌, if◌then◌else◌, text_eq, text_eq_refl,
  text_eq_iff, Option-cases, inl, inr, arith,
}
use so2_final.Server.{Client, State, new_client, client_exists, register}

-- No username comes twice.
abbrev pub IsDistinct : List Client → Type 0
IsDistinct [] = Unit {0}
IsDistinct (c ∷ cs) = (client_exists c.username cs ≡ none) × IsDistinct cs

pub client_exists-append :
    (username : List ℕ) (cs : List Client) (d : Client)
    → client_exists username (cs ++ (d ∷ []))
      ≡ elim (client_exists username cs) as (λ _. Option Client) [
        | none ↦ (if text_eq d.username username then some d else none)
        | some c ↦ some c
      ]
unfolding client_exists
client_exists-append username [] d = refl
client_exists-append username (c ∷ cs) d = ground (arith, client_exists-append username cs d)

append-IsDistinct :
    (cs : List Client) (d : Client)
    → client_exists d.username cs ≡ none
    → IsDistinct cs
    → IsDistinct (cs ++ (d ∷ []))
unfolding client_exists
append-IsDistinct [] d fresh v = (refl, tt)
append-IsDistinct (c ∷ cs) d fresh v = ground (
  arith,
  append-IsDistinct cs d,
  client_exists-append c.username cs d,
  text_eq_iff c.username d.username,
  text_eq_iff d.username c.username,
)

-- If no username comes twice in the list of clients, then none does after a client is registered.
pub register-IsDistinct :
    (state : State) (username : List ℕ) (cs : List Client)
    → IsDistinct cs
    → IsDistinct (register state username cs)
unfolding register
register-IsDistinct state username cs v = elim (Option-cases (client_exists username cs)) [
  | inl fresh ↦ rw (fresh, register) (append-IsDistinct cs (new_client state username) fresh v)
  | inr (c, known) ↦ rw (known, register) v
]

-- After a client is registered, its username is found: the client that was there under it, or else
-- the new one.
pub client_exists-register :
    (state : State) (username : List ℕ) (cs : List Client)
    → client_exists username (register state username cs)
      ≡ elim (client_exists username cs) as (λ _. Option Client) [
        | none ↦ some (new_client state username)
        | some c ↦ some c
      ]
unfolding register
client_exists-register state username cs =
    ground
      (arith, client_exists-append username cs (new_client state username), text_eq_refl username)

-- Registering a client changes nothing about what is found under another username.
pub client_exists-register_ne :
    (state : State) (username other : List ℕ) (cs : List Client)
    → username ≢ other
    → client_exists other (register state username cs) ≡ client_exists other cs
unfolding register
client_exists-register_ne state username other cs differ =
    ground
      (arith, client_exists-append other cs (new_client state username), text_eq_iff username other)

-- A second registration changes nothing.
pub register-register :
    (state again : State) (username : List ℕ) (cs : List Client)
    → register again username (register state username cs) ≡ register state username cs
unfolding register
register-register state again username cs =
    ground
      (arith, client_exists-append username cs (new_client state username), text_eq_refl username)
