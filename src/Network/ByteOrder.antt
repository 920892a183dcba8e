-- ===== src/Network/ByteOrder.antt =====
-- The host's integers in memory, and the conversions of arpa/inet.h. They belong to the platform
-- and are a parameter: `store` and `load` are `memcpy` between an integer and its bytes.
use so2_final.Base.{ℕ, ◌+◌, ◌*◌, ◌/◌, ◌%◌, ◌^◌, ◌<◌, ◌≡◌, refl, ap, List, [], ◌∷◌, length, arith}

pub record ByteOrder : Type 0 where
  pub store16 : ℕ → List ℕ
  pub load16 : List ℕ → ℕ
  pub store32 : ℕ → List ℕ
  pub load32 : List ℕ → ℕ
  pub htons : ℕ → ℕ
  pub ntohs : ℕ → ℕ
  pub htonl : ℕ → ℕ
  pub ntohl : ℕ → ℕ

-- Most significant byte first.
abbrev pub big16 : ℕ → List ℕ
big16 x = (x / 256) ∷ (x % 256) ∷ []

abbrev pub big32 : ℕ → List ℕ
big32 x = (x / 2 ^ 24) ∷ (x / 2 ^ 16 % 256) ∷ (x / 2 ^ 8 % 256) ∷ (x % 256) ∷ []

-- What POSIX says: a converted value lies in memory in network order, and the conversion back
-- reads it so.
pub record IsByteOrder (h : ByteOrder) : Type 0 where
  pub store16-htons : (x : ℕ) → x < 2 ^ 16 → h.store16 (h.htons x) ≡ big16 x
  pub store32-htonl : (x : ℕ) → x < 2 ^ 32 → h.store32 (h.htonl x) ≡ big32 x
  pub ntohs-load16 : (x : ℕ) → x < 2 ^ 16 → h.ntohs (h.load16 (big16 x)) ≡ x
  pub ntohl-load32 : (x : ℕ) → x < 2 ^ 32 → h.ntohl (h.load32 (big32 x)) ≡ x

-- An integer that is stored takes the bytes of its type, and is loaded again from them.
pub record IsMemory (h : ByteOrder) : Type 0 where
  pub length-store32 : (x : ℕ) → length (h.store32 x) ≡ 4
  pub load32-store32 : (x : ℕ) → x < 2 ^ 32 → h.load32 (h.store32 x) ≡ x

read16 : List ℕ → ℕ
read16 (a ∷ b ∷ _) = a * 256 + b
read16 _ = 0

read32 : List ℕ → ℕ
read32 (a ∷ b ∷ c ∷ d ∷ _) = a * 2 ^ 24 + b * 2 ^ 16 + c * 2 ^ 8 + d
read32 _ = 0

-- A host that keeps the most significant byte first.
unfoldable pub big_endian : ByteOrder
unfolding read16 read32
big_endian = record {
  store16 = big16;
  load16 = read16;
  store32 = big32;
  load32 = read32;
  htons = λ x. x;
  ntohs = λ x. x;
  htonl = λ x. x;
  ntohl = λ x. x;
}

swap16 : ℕ → ℕ
swap16 x = x % 256 * 256 + x / 256

swap32 : ℕ → ℕ
swap32 x = x % 256 * 2 ^ 24 + x / 2 ^ 8 % 256 * 2 ^ 16 + x / 2 ^ 16 % 256 * 2 ^ 8 + x / 2 ^ 24

-- A host that keeps it last.
unfoldable pub little_endian : ByteOrder
unfolding read16 read32 swap16 swap32
little_endian = record {
  store16 = λ x. big16 (swap16 x);
  load16 = λ bs. swap16 (read16 bs);
  store32 = λ x. big32 (swap32 x);
  load32 = λ bs. swap32 (read32 bs);
  htons = swap16;
  ntohs = swap16;
  htonl = swap32;
  ntohl = swap32;
}

read16-big16 : (x : ℕ) → x < 2 ^ 16 → read16 (big16 x) ≡ x
unfolding read16
read16-big16 x h = omega arith

read32-big32 : (x : ℕ) → x < 2 ^ 32 → read32 (big32 x) ≡ x
unfolding read32
read32-big32 x h = omega arith

swap16-swap16 : (x : ℕ) → x < 2 ^ 16 → swap16 (swap16 x) ≡ x
unfolding swap16
swap16-swap16 x h = omega arith

swap32-swap32 : (x : ℕ) → x < 2 ^ 32 → swap32 (swap32 x) ≡ x
unfolding swap32
swap32-swap32 x h = omega arith

pub big_endian-IsByteOrder : IsByteOrder big_endian
unfolding big_endian
big_endian-IsByteOrder = record {
  store16-htons = λ x h. refl;
  store32-htonl = λ x h. refl;
  ntohs-load16 = read16-big16;
  ntohl-load32 = read32-big32;
}

pub little_endian-IsByteOrder : IsByteOrder little_endian
unfolding little_endian
little_endian-IsByteOrder = record {
  store16-htons = λ x h. ap big16 (swap16-swap16 x h);
  store32-htonl = λ x h. ap big32 (swap32-swap32 x h);
  ntohs-load16 = λ x h. rw (read16-big16 x h) (swap16-swap16 x h);
  ntohl-load32 = λ x h. rw (read32-big32 x h) (swap32-swap32 x h);
}

swap32-bound : (x : ℕ) → x < 2 ^ 32 → swap32 x < 2 ^ 32
unfolding swap32
swap32-bound x h = omega arith

pub little_endian-IsMemory : IsMemory little_endian
unfolding little_endian
little_endian-IsMemory = record {
  length-store32 = λ x. refl;
  load32-store32 = λ x h. rw (read32-big32 (swap32 x) (swap32-bound x h)) (swap32-swap32 x h);
}
