-- ===== src/Client/Events/Buffer/Layout.antt =====
-- The bytes of inotify's events.
use so2_final.Base.{
  take-front, drop-front, drop-past, ◌^◌, ℕ, zero, suc, ◌+◌, ◌<◌, ◌≡◌, ◌⊎◌, refl, ap, ◌∙◌, false,
  Option, none, some, List, [], ◌∷◌, ◌++◌, append_assoc, map, length, drop, take, length-append,
  All, ◌==◌, arith,
}
use so2_final.Network.ByteOrder.{ByteOrder, IsMemory}
use so2_final.Device.Text.{until_zero}
use so2_final.Client.Events.{Event}
use so2_final.Client.Events.Buffer.{event_at}

-- What the system tells of one event. The name has zero bytes behind it.
pub record Notice : Type 0 where
  pub wd : ℕ
  pub mask : ℕ
  pub cookie : ℕ
  pub name : List ℕ
  pub zeros : ℕ

pub zero_bytes : ℕ → List ℕ
zero_bytes zero = []
zero_bytes (suc n) = 0 ∷ zero_bytes n

length-zero_bytes : (n : ℕ) → length (zero_bytes n) ≡ n
unfolding zero_bytes
length-zero_bytes zero = refl
length-zero_bytes (suc n) = ap suc (length-zero_bytes n)

-- The bytes of `len`.
abbrev pub room : Notice → ℕ
room n = length n.name + n.zeros

-- The name is a C string, and there is none or it has a zero byte behind it.
pub record IsLaidOut (n : Notice) : Type 0 where
  pub mask-fits : n.mask < 2 ^ 32
  pub room-fits : room n < 2 ^ 32
  pub unbroken : All (λ b. 0 < b) n.name
  pub closed : (room n ≡ 0) ⊎ (0 < n.zeros)

abbrev pub told : Notice → Event
told n = record { mask = n.mask; len = room n; name = n.name }

-- What a `read` gets; `none` is a failure.
abbrev pub IsRead : Option (List Notice) → Type 0
IsRead none = Unit {0}
IsRead (some ns) = All IsLaidOut ns

abbrev pub told_in : List (Option (List Notice)) → List Event
told_in [] = []
told_in (none ∷ reads) = told_in reads
told_in (some ns ∷ reads) = map told ns ++ told_in reads

until_zero-zero :
    (name rest : List ℕ) (n : ℕ)
    → All (λ b. 0 < b) name
    → until_zero (name ++ (zero_bytes (suc n) ++ rest)) ≡ name
unfolding until_zero zero_bytes
until_zero-zero [] rest n e = refl
until_zero-zero (b ∷ bs) rest n (p, ps) =
    let inside : (b == 0) ≡ false = ground arith in
    rw inside (ap (◌∷◌ b) (until_zero-zero bs rest n ps))

pub until_zero-zeros :
    (name rest : List ℕ) (n : ℕ)
    → All (λ b. 0 < b) name
    → 0 < n
    → until_zero (name ++ (zero_bytes n ++ rest)) ≡ name
until_zero-zeros name rest zero inside some_left = absurd (omega arith)
until_zero-zeros name rest (suc n) inside some_left = until_zero-zero name rest n inside

-- Four fields of four bytes, and what is behind them.
module _ (a b c d e : List ℕ) (la : length a ≡ 4) (lb : length b ≡ 4) (lc : length c ≡ 4)
    (ld : length d ≡ 4) where
  second_field : take 4 (drop 4 (a ++ (b ++ (c ++ (d ++ e))))) ≡ b
  second_field = ap (take 4) (drop-front 4 a _ la) ∙ take-front 4 b _ lb

  fourth_field : take 4 (drop 12 (a ++ (b ++ (c ++ (d ++ e))))) ≡ d
  fourth_field =
      ap (take 4) (drop-past 4 8 a _ la ∙ drop-past 4 4 b _ lb ∙ drop-front 4 c _ lc)
      ∙ take-front 4 d _ ld

  behind_fields : drop 16 (a ++ (b ++ (c ++ (d ++ e)))) ≡ e
  behind_fields =
      drop-past 4 12 a _ la ∙ drop-past 4 8 b _ lb ∙ drop-past 4 4 c _ lc ∙ drop-front 4 d _ ld

module _ (h : ByteOrder) (k : IsMemory h) where
  -- `man 7 inotify`
  unfoldable pub notice_bytes : Notice → List ℕ
  unfolding zero_bytes
  notice_bytes n =
      h.store32 n.wd
      ++ (h.store32 n.mask
          ++ (h.store32 n.cookie ++ (h.store32 (room n) ++ (n.name ++ zero_bytes n.zeros))))

  unfoldable pub notices_bytes : List Notice → List ℕ
  notices_bytes [] = []
  notices_bytes (n ∷ ns) = notice_bytes n ++ notices_bytes ns

  pub length-notice_bytes : (n : Notice) → length (notice_bytes n) ≡ 16 + room n
  unfolding notice_bytes
  length-notice_bytes n = omega (arith, length-append {A = ℕ}, length-zero_bytes, k.length-store32)

  notice_bytes-fields :
      (n : Notice) (rest : List ℕ)
      → notice_bytes n ++ rest
        ≡ h.store32 n.wd
          ++ (h.store32 n.mask
              ++ (h.store32 n.cookie
                  ++ (h.store32 (room n) ++ (n.name ++ (zero_bytes n.zeros ++ rest)))))
  unfolding notice_bytes
  notice_bytes-fields n rest = simp append_assoc

  pub event_at-notice :
      (n : Notice) (rest : List ℕ)
      → IsLaidOut n
      → event_at h (notice_bytes n ++ rest) ≡ record {
        mask = n.mask;
        len = room n;
        name = until_zero (n.name ++ (zero_bytes n.zeros ++ rest));
      }
  unfolding event_at
  event_at-notice n rest laid =
      let l = k.length-store32 in
      rw
        (
          notice_bytes-fields n rest,
          second_field (h.store32 n.wd) (h.store32 n.mask) (h.store32 n.cookie) (h.store32 (room n))
              (n.name ++ (zero_bytes n.zeros ++ rest)) (l n.wd) (l n.mask) (l n.cookie)
              (l (room n)),
          fourth_field (h.store32 n.wd) (h.store32 n.mask) (h.store32 n.cookie) (h.store32 (room n))
              (n.name ++ (zero_bytes n.zeros ++ rest)) (l n.wd) (l n.mask) (l n.cookie)
              (l (room n)),
          behind_fields (h.store32 n.wd) (h.store32 n.mask) (h.store32 n.cookie)
              (h.store32 (room n)) (n.name ++ (zero_bytes n.zeros ++ rest)) (l n.wd) (l n.mask)
              (l n.cookie) (l (room n)),
          k.load32-store32 n.mask laid.mask-fits,
          k.load32-store32 (room n) laid.room-fits,
        )
        refl

  abbrev pub read_bytes : Option (List Notice) → Option (List ℕ)
  read_bytes none = none
  read_bytes (some ns) = some (notices_bytes ns)
