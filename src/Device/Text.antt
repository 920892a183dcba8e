-- ===== src/Device/Text.antt =====
-- Payloads read as text.
use so2_final.Base.{
  ℕ, Bool, ◌||◌, ◌&&◌, Option, none, some, List, [], ◌∷◌, leb, ◌==◌, if◌then◌else◌, M, return,
  throw, null_payload,
}

-- The bytes before the first zero byte.
unfoldable pub until_zero : List ℕ → List ℕ
until_zero [] = []
until_zero (b ∷ bs) = let rest = until_zero bs in if b == 0 then [] else b ∷ rest

-- `std::string(char *)`, and a stream on it; a null pointer is refused by an exception.
unfoldable pub c_string {ℓ} : {S : Type ℓ} → Option (List ℕ) → M S (List ℕ)
unfolding until_zero
c_string none = throw null_payload
c_string (some bytes) = return (until_zero bytes)

abbrev pub is_space : ℕ → Bool
is_space b = (leb 9 b && leb b 13) || b == 32

unfoldable pub skip_spaces : List ℕ → List ℕ
skip_spaces [] = []
skip_spaces (b ∷ bs) = let rest = skip_spaces bs in if is_space b then rest else b ∷ bs

unfoldable pub until_space : List ℕ → List ℕ
until_space [] = []
until_space (b ∷ bs) = let rest = until_space bs in if is_space b then [] else b ∷ rest

-- `stream >> word`; the word is empty if there is none.
unfoldable pub first_word : List ℕ → List ℕ
unfolding skip_spaces until_space
first_word text = until_space (skip_spaces text)

until_break : List ℕ → List ℕ
until_break [] = []
until_break (b ∷ bs) = let rest = until_break bs in if is_space b then b ∷ bs else rest

-- What `stream >> word` leaves.
unfoldable pub behind_word : List ℕ → List ℕ
unfolding skip_spaces until_break
behind_word text = until_break (skip_spaces text)
