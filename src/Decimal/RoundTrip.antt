-- ===== src/Decimal/RoundTrip.antt =====
-- A number that is sent as text is read back.
use so2_final.Base.{
  ℕ, zero, suc, ◌+◌, ◌-◌, ◌*◌, ◌/◌, ◌%◌, ◌^◌, ◌<◌, ◌≤◌, length, ◌≡◌, refl, true, false, List, [],
  ◌∷◌, ok, ltb, arith, ◌∙◌,
}
use so2_final.Device.Text.{skip_spaces, until_zero}
use so2_final.Decimal.{emit, to_string, scan, starts_digit, stoi, read_sign, read_int}

-- The numbers with so many digits.
abbrev ten_to : ℕ → ℕ
ten_to zero = 1
ten_to (suc n) = 10 * ten_to n

scan-emit : (fuel n : ℕ) (out : List ℕ) → n < ten_to fuel → scan 0 (emit fuel n out) ≡ scan n out
unfolding scan emit
scan-emit zero n out h = let none_left : n ≡ 0 = omega arith in rw none_left
scan-emit (suc fuel) n out h = ground (arith, scan-emit fuel (n / 10) ((b'0' + n % 10) ∷ out))

starts_digit-emit :
    (fuel n : ℕ) (out : List ℕ) → starts_digit out ≡ true → starts_digit (emit fuel n out) ≡ true
unfolding starts_digit emit
starts_digit-emit zero n out h = h
starts_digit-emit (suc fuel) n out h =
    ground (arith, starts_digit-emit fuel (n / 10) ((b'0' + n % 10) ∷ out))

starts_digit-to_string : (n : ℕ) → starts_digit (to_string n) ≡ true
unfolding to_string starts_digit
starts_digit-to_string n = ground (arith, starts_digit-emit 9 (n / 10) ((b'0' + n % 10) ∷ []))

stoi-digits :
    {S : Type 0} (text : List ℕ) (s : S)
    → starts_digit text ≡ true
    → stoi text s ≡ read_int false text s
unfolding stoi skip_spaces read_sign starts_digit
stoi-digits [] s h = cc
stoi-digits (b ∷ bs) s h = ground arith

scan-to_string : (n : ℕ) → n < 2 ^ 31 → scan 0 (to_string n) ≡ n
unfolding to_string scan
scan-to_string n h = scan-emit 10 n [] (omega arith)

read_int-ok :
    {S : Type 0} (text : List ℕ) (n : ℕ) (s : S)
    → starts_digit text ≡ true
    → scan 0 text ≡ n
    → n < 2 ^ 31
    → read_int false text s ≡ ok (record { negative = false; size = n }) s
unfolding read_int
read_int-ok text n s h e small =
    let fits : ltb (2 ^ 31 - 1) n ≡ false = ground arith in rw (h, e) (rw fits)

-- `stoi` reads the text of a number below 2 ^ 31 back.
pub stoi-to_string :
    {S : Type 0} (n : ℕ) (s : S)
    → n < 2 ^ 31
    → stoi (to_string n) s ≡ ok (record { negative = false; size = n }) s
stoi-to_string n s h =
    stoi-digits (to_string n) s (starts_digit-to_string n)
    ∙ read_int-ok (to_string n) n s (starts_digit-to_string n) (scan-to_string n h) h

-- The text of a number has no zero byte and one to ten characters.
until_zero-emit :
    (fuel n : ℕ) (out : List ℕ)
    → until_zero out ≡ out
    → until_zero (emit fuel n out) ≡ emit fuel n out
unfolding until_zero emit
until_zero-emit zero n out h = h
until_zero-emit (suc fuel) n out h =
    ground (arith, until_zero-emit fuel (n / 10) ((b'0' + n % 10) ∷ out))

-- The text of a number is a C string without a zero byte.
pub until_zero-to_string : (n : ℕ) → until_zero (to_string n) ≡ to_string n
unfolding to_string
until_zero-to_string n = until_zero-emit 10 n [] (unfold until_zero in refl)

length-emit : (fuel n : ℕ) (out : List ℕ) → length (emit fuel n out) ≤ fuel + length out
unfolding emit
length-emit zero n out = omega arith
length-emit (suc fuel) n out = ground (arith, length-emit fuel (n / 10) ((b'0' + n % 10) ∷ out))

starts_digit-length : (text : List ℕ) → starts_digit text ≡ true → 1 ≤ length text
unfolding starts_digit
starts_digit-length [] h = cc
starts_digit-length (b ∷ bs) h = omega arith

-- It has one to ten characters.
pub length-to_string : (n : ℕ) → (1 ≤ length (to_string n)) × (length (to_string n) ≤ 10)
length-to_string n = (
  starts_digit-length (to_string n) (starts_digit-to_string n),
  (unfold to_string in length-emit 10 n []),
)
