-- ===== src/Base/Results.antt =====
-- Calls that may throw: a state-passing monad whose exceptions keep the state they were thrown in.
use mathlib.Core.Path.{◌≡◌, refl, sym, ◌∙◌}
use mathlib.Core.Logic.{◌⊎◌, inl, inr}

-- The exceptions that the program throws. `null_payload` is `std::string(nullptr)`, and
-- `invalid_argument` and `out_of_range` are those of `std::stoi`: each a `std::logic_error`. The
-- others are each a `std::runtime_error`.
pub data Error : Type 0 where
  invalid_socket socket_not_initialized socket_initialized : Error
  invalid_packet send_failed header_failed closed_by_peer : Error
  buffer_too_small invalid_length null_payload : Error
  open_failed create_failed remove_failed rename_failed hash_failed : Error
  empty_username no_network_manager server_refuses : Error
  invalid_argument out_of_range : Error
  bad_address socket_failed bind_failed listen_failed accept_failed name_failed connect_failed :
      Error

-- Why a call has no result: it does not come back, or its behaviour is undefined, since it frees
-- memory twice.
pub data Silence : Type 0 where
  endless freed_twice : Silence

pub data Result {ℓ κ} (S : Type ℓ) (A : Type κ) : Type (ℓ ⊔ κ) where
  ok : A → S → Result S A
  err : Error → S → Result S A
  hang : Silence → Result S A

abbrev pub M {ℓ κ} : Type ℓ → Type κ → Type (ℓ ⊔ κ)
M S A = S → Result S A

infixl 5 ◌>>=◌ ◌>>◌
abbrev pub ◌>>=◌ {ℓ κ μ} : {S : Type ℓ} {A : Type κ} {B : Type μ} → M S A → (A → M S B) → M S B
◌>>=◌ m f s = elim (m s) [ ok a s' ↦ f a s' | err e s' ↦ err e s' | hang w ↦ hang w ]

abbrev pub ◌>>◌ {ℓ κ} : {S : Type ℓ} {B : Type κ} → M S (Unit {0}) → M S B → M S B
m >> k = m >>= λ _. k

abbrev pub return {ℓ κ} : {S : Type ℓ} {A : Type κ} → A → M S A
return a s = ok a s

abbrev pub throw {ℓ κ} : {S : Type ℓ} {A : Type κ} → Error → M S A
throw e s = err e s

module _ {ℓ κ μ} {S : Type ℓ} {A : Type κ} {B : Type μ} (m : M S A) (f : A → M S B) where
  -- A sequence runs on where its first part returns, and stops where that throws or hangs.
  pub >>=-ok : (s : S) {s' : S} {a : A} → m s ≡ ok a s' → (m >>= f) s ≡ f a s'
  >>=-ok s e = rw (e, ◌>>=◌)

  pub >>=-err : (s : S) {s' : S} {e : Error} → m s ≡ err e s' → (m >>= f) s ≡ err e s'
  >>=-err s e = rw (e, ◌>>=◌)

  pub >>=-hang : (s : S) {w : Silence} → m s ≡ hang w → (m >>= f) s ≡ hang w
  >>=-hang s e = rw (e, ◌>>=◌)

pub Result-cases {ℓ κ} :
    {S : Type ℓ} {A : Type κ} (r : Result S A)
    → ((a : A) × (s : S) × (r ≡ ok a s))
      ⊎ (((e : Error) × (s : S) × (r ≡ err e s)) ⊎ ((w : Silence) × (r ≡ hang w)))
Result-cases (ok a s) = inl (a, s, refl)
Result-cases (err e s) = inr (inl (e, s, refl))
Result-cases (hang w) = inr (inr (w, refl))

-- Calls with the same result, and then calls with the same results.
pub >>-alike :
    {S : Type 0} (m m' : M S (Unit {0})) (f f' : M S (Unit {0})) (s : S)
    → m s ≡ m' s
    → ((t : S) → f t ≡ f' t)
    → (m >> f) s ≡ (m' >> f') s
>>-alike m m' f f' s e g = elim (Result-cases (m' s)) [
  | inl (a, t, r) ↦ >>=-ok m _ s (e ∙ r) ∙ g t ∙ sym (>>=-ok m' _ s r)
  | inr (inl (x, t, r)) ↦ >>=-err m _ s (e ∙ r) ∙ sym (>>=-err m' _ s r)
  | inr (inr (w, r)) ↦ >>=-hang m _ s (e ∙ r) ∙ sym (>>=-hang m' _ s r)
]

pub >>-assoc : {S : Type 0} (m f g : M S (Unit {0})) (s : S) → (m >> (f >> g)) s ≡ ((m >> f) >> g) s
>>-assoc m f g s = elim (Result-cases (m s)) [
  | inl (a, t, r) ↦ rw (r, ◌>>=◌) refl
  | inr (inl (x, t, r)) ↦ rw (r, ◌>>=◌) refl
  | inr (inr (w, r)) ↦ rw (r, ◌>>=◌) refl
]
