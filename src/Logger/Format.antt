-- ===== src/Logger/Format.antt =====
-- `direct_sprintf`: the text of a message in a buffer of 4096 bytes.
use so2_final.Base.{
  ℕ, append_assoc, zero, suc, ◌+◌, ◌-◌, ◌≤◌, ◌≡◌, ap, ◌∙◌, List, [], ◌∷◌, ◌++◌, length, take, drop,
  arith, length-take,
}
use so2_final.Device.Text.{until_zero}

abbrev zeros : ℕ → List ℕ
zeros zero = []
zeros (suc n) = 0 ∷ zeros n

abbrev set : List ℕ → ℕ → ℕ → List ℕ
set [] i v = []
set (x ∷ xs) zero v = v ∷ xs
set (x ∷ xs) (suc i) v = x ∷ set xs i v

-- `vsnprintf(buf, size, …)`, where `text` is the whole text that the format and its arguments
-- make: at most `size - 1` bytes of it are written, and a zero byte behind them.
vsnprintf : List ℕ → ℕ → List ℕ → List ℕ
vsnprintf buf size text =
    let written = take (size - 1) text ++ (0 ∷ []) in written ++ drop (length written) buf

pub buffer_size : ℕ
buffer_size = 4096

unfoldable pub direct_sprintf : List ℕ → List ℕ
unfolding vsnprintf buffer_size
direct_sprintf text =
    let buf = vsnprintf (zeros buffer_size) (buffer_size - 1) text in
    until_zero (set buf (buffer_size - 1) 0)

until_zero-stops :
    (xs ys : List ℕ) (i v : ℕ)
    → until_zero (set (xs ++ (0 ∷ ys)) (length xs + suc i) v) ≡ until_zero xs
unfolding until_zero
until_zero-stops [] ys i v = ground arith
until_zero-stops (x ∷ xs) ys i v = ground (arith, until_zero-stops xs ys i v)

length-until_zero : (xs : List ℕ) → length (until_zero xs) ≤ length xs
unfolding until_zero
length-until_zero [] = omega arith
length-until_zero (x ∷ xs) = ground (arith, length-until_zero xs)

vsnprintf-cut :
    (m : ℕ) (buf text : List ℕ)
    → until_zero (set (vsnprintf buf (suc m) text) (suc m) 0) ≡ until_zero (take m text)
unfolding vsnprintf
vsnprintf-cut m buf text =
    let cut = take m text in
    let same : suc m - 1 ≡ m = omega arith in
    let back : suc m ≡ length cut + suc (m - length cut) = omega (arith, length-take m text) in
    let rest = drop (length (cut ++ (0 ∷ []))) buf in
    rw same (
      ap (λ l. until_zero (set l (suc m) 0)) (append_assoc cut (0 ∷ []) rest)
      ∙ ap (λ n. until_zero (set (cut ++ (0 ∷ rest)) n 0)) back
      ∙ until_zero-stops cut rest (m - length cut) 0)

shorter : (m : ℕ) (text : List ℕ) → length (until_zero (take m text)) ≤ m
shorter m text = omega (arith, length-until_zero (take m text), length-take m text)

direct_sprintf-cut : (text : List ℕ) → direct_sprintf text ≡ until_zero (take 4094 text)
unfolding direct_sprintf buffer_size
direct_sprintf-cut text = vsnprintf-cut 4094 (zeros 4096) text

-- `direct_sprintf` returns the first 4094 bytes of the formatted text up to a zero byte, so at
-- most 4094 bytes.
pub direct_sprintf_lem :
    (text : List ℕ)
    → (direct_sprintf text ≡ until_zero (take 4094 text)) × (length (direct_sprintf text) ≤ 4094)
direct_sprintf_lem text = let e = direct_sprintf-cut text in (e, rw e (shorter 4094 text))
