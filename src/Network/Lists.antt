-- ===== src/Network/Lists.antt =====
-- The two functions named `list_to_packet_content` of Utils/NetworkManager.cpp: a list of texts in
-- a payload. The header declares the second one as `packet_content_to_list`.
use so2_final.Base.{
  ℕ, suc, ◌+◌, ◌≡◌, refl, ap, ◌∙◌, List, [], ◌∷◌, ◌++◌, length, take, drop, codes, ◌==◌,
  if◌then◌else◌, All, append_assoc, length-append, take-append, arith,
}

abbrev pub semicolon : ℕ
semicolon = b';'

join : List (List ℕ) → List ℕ
join [] = []
join (s ∷ ss) = s ++ (semicolon ∷ join ss)

pub encode_list : List (List ℕ) → List ℕ
unfolding join
encode_list ss = codes "[" ++ (join ss ++ codes "]")

-- No entries.
pub encode_list-nil : encode_list [] ≡ codes "[]"
unfolding encode_list
encode_list-nil = refl

-- The loop at index `i`, before the bytes that are left. `substr(left, i)` takes `i` bytes.
decode_loop : List ℕ → ℕ → ℕ → List ℕ → List (List ℕ)
decode_loop content i left [] = []
decode_loop content i left (b ∷ bs) =
    let rest = decode_loop content (suc i) (if b == semicolon then i else left) bs in
    if b == semicolon then take i (drop left content) ∷ rest else rest

pub decode_list : List ℕ → List (List ℕ)
unfolding decode_loop
decode_list content = decode_loop content 1 1 (drop 1 content)

unfoldable pub semicolons : List ℕ → ℕ
semicolons [] = 0
semicolons (b ∷ bs) = let rest = semicolons bs in if b == semicolon then suc rest else rest

abbrev pub IsPlain : List ℕ → Type 0
IsPlain s = semicolons s ≡ 0

semicolons-append : (xs ys : List ℕ) → semicolons (xs ++ ys) ≡ semicolons xs + semicolons ys
unfolding semicolons
semicolons-append [] ys = omega arith
semicolons-append (x ∷ xs) ys = ground (arith, semicolons-append xs ys)

semicolons-join : (ss : List (List ℕ)) → All IsPlain ss → semicolons (join ss) ≡ length ss
unfolding join
semicolons-join [] h = unfold semicolons in refl
semicolons-join (s ∷ ss) h =
    let more : semicolons (semicolon ∷ join ss) ≡ suc (semicolons (join ss)) =
      unfold semicolons in refl in
    omega (arith, h.0, semicolons-append s (semicolon ∷ join ss), semicolons-join ss h.1)

length-decode_loop :
    (content : List ℕ) (i left : ℕ) (bs : List ℕ)
    → length (decode_loop content i left bs) ≡ semicolons bs
unfolding decode_loop semicolons
length-decode_loop content i left [] = refl
length-decode_loop content i left (b ∷ bs) =
    ground (arith, length-decode_loop content (suc i) (if b == semicolon then i else left) bs)

-- Reading back an encoded list gives as many entries as were written, if no text has a semicolon.
pub length-decode_list-encode_list :
    (ss : List (List ℕ)) → All IsPlain ss → length (decode_list (encode_list ss)) ≡ length ss
unfolding decode_list encode_list
length-decode_list-encode_list ss h =
    length-decode_loop (encode_list ss) 1 1 (join ss ++ codes "]")
    ∙ semicolons-append (join ss) (codes "]")
    ∙ (let none_more : semicolons (codes "]") ≡ 0 = unfold semicolons in refl in
        omega (arith, semicolons-join ss h))

decode_loop-skips :
    (content : List ℕ) (i left : ℕ) (s bs : List ℕ)
    → IsPlain s
    → decode_loop content i left (s ++ bs) ≡ decode_loop content (length s + i) left bs
unfolding decode_loop semicolons
decode_loop-skips content i left [] bs h = ground arith
decode_loop-skips content i left (c ∷ s) bs h =
    let shift : suc (length s) + i ≡ length s + suc i = omega arith in
    rw shift (ground (arith, decode_loop-skips content (suc i) left s bs))

-- Reading back the encoding of a single text without a semicolon gives that text with a semicolon
-- behind it.
pub decode_list-encode_list_single :
    (s : List ℕ) → IsPlain s → decode_list (encode_list (s ∷ [])) ≡ (s ++ (semicolon ∷ [])) ∷ []
unfolding decode_list encode_list
decode_list-encode_list_single s h =
    let content = encode_list (s ∷ []) in
    let entry = s ++ (semicolon ∷ []) in
    let len : length s + 1 ≡ length entry = omega (arith, length-append s (semicolon ∷ [])) in
    ap (decode_loop content 1 1) (append_assoc s (semicolon ∷ []) (codes "]"))
    ∙ decode_loop-skips content 1 1 s (semicolon ∷ codes "]") h
    ∙ ap (λ t. t ∷ []) (ap (λ n. take n (entry ++ codes "]")) len ∙ take-append entry (codes "]"))
