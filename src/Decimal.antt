-- ===== src/Decimal.antt =====
-- `std::to_string` and `std::stoi`, with which port numbers are sent as text.
pub mod RoundTrip
pub mod Extract
use so2_final.Base.{
  ℕ, zero, suc, ◌+◌, ◌-◌, ◌*◌, ◌/◌, ◌%◌, ◌^◌, Bool, true, false, ◌&&◌, List, [], ◌∷◌, leb, ltb,
  ◌==◌, if◌then◌else◌, M, return, throw, invalid_argument, out_of_range,
}
use so2_final.Device.Text.{skip_spaces}

-- The digits of the number, before those in `out`; one round for each digit.
emit : ℕ → ℕ → List ℕ → List ℕ
emit zero n out = out
emit (suc fuel) n out =
    let rest = emit fuel (n / 10) ((b'0' + n % 10) ∷ out) in
    if ltb n 10 then (b'0' + n % 10) ∷ out else rest

-- An `int` that is not negative has ten digits at most.
unfoldable pub to_string : ℕ → List ℕ
unfolding emit
to_string n = emit 10 n []

abbrev is_digit : ℕ → Bool
is_digit b = leb b'0' b && leb b b'9'

-- The number that the digits at the front spell behind `n`.
scan : ℕ → List ℕ → ℕ
scan n [] = n
scan n (b ∷ bs) = let rest = scan (n * 10 + (b - b'0')) bs in if is_digit b then rest else n

starts_digit : List ℕ → Bool
starts_digit [] = false
starts_digit (b ∷ bs) = is_digit b

-- A number with its sign.
pub record Signed : Type 0 where
  pub negative : Bool
  pub size : ℕ

-- From the first digit on. An `int` has 32 bits.
read_int : {S : Type 0} → Bool → List ℕ → M S Signed
unfolding scan starts_digit
read_int negative text =
    if starts_digit text
    then (if ltb (if negative then 2 ^ 31 else 2 ^ 31 - 1) (scan 0 text)
        then throw out_of_range
        else return (record { negative = negative; size = scan 0 text }))
    else throw invalid_argument

read_sign : {S : Type 0} → List ℕ → M S Signed
unfolding read_int
read_sign [] = throw invalid_argument
read_sign (b ∷ bs) =
    if b == b'-'
    then read_int true bs
    else if b == b'+'
    then read_int false bs
    else read_int false (b ∷ bs)

unfoldable pub stoi : {S : Type 0} → List ℕ → M S Signed
unfolding read_sign
stoi text = read_sign (skip_spaces text)

-- `stream >> number`: 0 if there is no number, and the nearest `int` if it is too large.
extract_digits : Bool → List ℕ → Signed
unfolding scan starts_digit
extract_digits negative text =
    let limit = if negative then 2 ^ 31 else 2 ^ 31 - 1 in
    if starts_digit text
    then record {
      negative = negative;
      size = if ltb limit (scan 0 text) then limit else scan 0 text;
    }
    else record { negative = false; size = 0 }

extract_sign : List ℕ → Signed
unfolding extract_digits
extract_sign [] = record { negative = false; size = 0 }
extract_sign (b ∷ bs) =
    if b == b'-'
    then extract_digits true bs
    else if b == b'+'
    then extract_digits false bs
    else extract_digits false (b ∷ bs)

unfoldable pub extract : List ℕ → Signed
unfolding extract_sign
extract text = extract_sign (skip_spaces text)

-- The 16 bits that `htons` takes of an `int`.
abbrev pub low_bits : Signed → ℕ
low_bits v = if v.negative then (2 ^ 16 - v.size % 2 ^ 16) % 2 ^ 16 else v.size % 2 ^ 16
