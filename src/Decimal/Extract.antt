-- ===== src/Decimal/Extract.antt =====
-- What `stream >> number` makes of a text that holds none.
use so2_final.Base.{ℕ, ◌≤◌, ◌≡◌, false, List, ◌∷◌, arith}
use so2_final.Device.Text.{skip_spaces, is_space}
use so2_final.Decimal.{extract, extract_sign, extract_digits, starts_digit, low_bits}

-- A byte of at least 64, as a letter is, starts no number.
extract_sign-late :
    (b : ℕ) (bs : List ℕ) → 64 ≤ b → extract_sign (b ∷ bs) ≡ record { negative = false; size = 0 }
unfolding extract_sign extract_digits starts_digit
extract_sign-late b bs late = ground arith

pub extract-late : (b : ℕ) (bs : List ℕ) → 64 ≤ b → low_bits (extract (b' ' ∷ b ∷ bs)) ≡ 0
unfolding extract skip_spaces
extract-late b bs late =
    let space : is_space b ≡ false = ground arith in rw (space, extract_sign-late b bs late)
