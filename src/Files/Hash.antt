-- ===== src/Files/Hash.antt =====
-- `hash_file_fnv1a` of Utils/FileManager.cpp, on a file's bytes.
use Prim.Native.Nat.{bit_xor}
use so2_final.Base.{
  ℕ, zero, suc, ◌*◌, ◌%◌, ◌^◌, ◌≤◌, ◌≡◌, refl, ◌∙◌, ap, List, [], ◌∷◌, ◌++◌, length, take, drop,
  length-drop, take-append-drop, arith,
}

abbrev pub fnv_offset_basis : ℕ
fnv_offset_basis = 14695981039346656037

abbrev fnv_prime : ℕ
fnv_prime = 1099511628211

-- `hash ^= byte; hash *= FNV_PRIME;` on a `uint64_t`
fnv_round : ℕ → ℕ → ℕ
fnv_round hash byte = bit_xor hash byte * fnv_prime % 2 ^ 64

-- The inner loop, over the bytes of one buffer.
fnv_buffer : ℕ → List ℕ → ℕ
fnv_buffer hash [] = hash
fnv_buffer hash (b ∷ bs) = fnv_buffer (fnv_round hash b) bs

abbrev block_size : ℕ
block_size = 8192

-- The outer loop reads a block at a time. Each one takes a byte at least.
fnv_blocks : ℕ → ℕ → List ℕ → ℕ
fnv_blocks fuel hash [] = hash
fnv_blocks zero hash (b ∷ bs) = hash
fnv_blocks (suc fuel) hash (b ∷ bs) =
    fnv_blocks fuel (fnv_buffer hash (take block_size (b ∷ bs))) (drop block_size (b ∷ bs))

unfoldable pub fnv1a : List ℕ → ℕ
unfolding fnv_blocks fnv_buffer fnv_round
fnv1a bytes = fnv_blocks (length bytes) fnv_offset_basis bytes

-- FNV-1a as it is defined: one round for each byte, from the offset basis.
pub fnv1a_reference : ℕ → List ℕ → ℕ
fnv1a_reference hash [] = hash
fnv1a_reference hash (b ∷ bs) = fnv1a_reference (bit_xor hash b * fnv_prime % 2 ^ 64) bs

fnv_buffer-append :
    (hash : ℕ) (xs ys : List ℕ)
    → fnv1a_reference (fnv_buffer hash xs) ys ≡ fnv1a_reference hash (xs ++ ys)
unfolding fnv_buffer fnv_round fnv1a_reference
fnv_buffer-append hash [] ys = refl
fnv_buffer-append hash (x ∷ xs) ys = fnv_buffer-append (fnv_round hash x) xs ys

drop_shorter :
    (b : ℕ) (bs : List ℕ) (fuel : ℕ) → length bs ≤ fuel → length (drop block_size (b ∷ bs)) ≤ fuel
drop_shorter b bs fuel h = omega (arith, length-drop block_size (b ∷ bs))

fnv_blocks-reference :
    (fuel hash : ℕ) (bytes : List ℕ)
    → length bytes ≤ fuel
    → fnv_blocks fuel hash bytes ≡ fnv1a_reference hash bytes
unfolding fnv_blocks fnv1a_reference
fnv_blocks-reference fuel hash [] h = refl
fnv_blocks-reference zero hash (b ∷ bs) h = absurd (omega arith)
fnv_blocks-reference (suc fuel) hash (b ∷ bs) h =
    fnv_blocks-reference fuel (fnv_buffer hash (take block_size (b ∷ bs)))
      (drop block_size (b ∷ bs)) (drop_shorter b bs fuel (omega arith))
    ∙ fnv_buffer-append hash (take block_size (b ∷ bs)) (drop block_size (b ∷ bs))
    ∙ ap (fnv1a_reference hash) (take-append-drop block_size (b ∷ bs))

-- For all bytes, reading them in blocks of 8192 gives the same hash as FNV-1a on the whole file,
-- one round for each byte from the offset basis.
pub fnv1a-reference : (bytes : List ℕ) → fnv1a bytes ≡ fnv1a_reference fnv_offset_basis bytes
unfolding fnv1a
fnv1a-reference bytes = fnv_blocks-reference (length bytes) fnv_offset_basis bytes (omega arith)
