-- ===== src/Network/Setup/Retries.antt =====
-- How often `connect_to_socket` tries.
use so2_final.Base.{
  ℕ, zero, suc, ◌≡◌, ◌≤◌, ◌<◌, true, false, Option, none, some, inl, inr, Bool-cases, List, leb,
  if◌then◌else◌, arith,
}
use so2_final.Network.Sockets.{Sockets}
use so2_final.Network.Setup.{connect_loop, connect_to_socket, close_any}

module _ (N : Sockets) (fd : Option ℕ) (a : N.Address) (port : ℕ) where
  -- The state behind so many attempts.
  unfoldable pub after : ℕ → N.State → N.State
  after zero s = s
  after (suc n) s = after n (N.connect s fd a port).1

  -- So many attempts fail, one after the other.
  abbrev pub Fails : ℕ → N.State → Type 0
  Fails zero s = Unit {0}
  Fails (suc n) s = ((N.connect s fd a port).0 ≡ false) × Fails n (N.connect s fd a port).1

  connect_loop-connects :
      (left n : ℕ) (s : N.State)
      → n ≤ left
      → Fails n s
      → (N.connect (after n s) fd a port).0 ≡ true
      → connect_loop N left fd a port s ≡ (fd, (N.connect (after n s) fd a port).1)
  unfolding connect_loop after
  connect_loop-connects zero zero s h f c = rw c
  connect_loop-connects (suc left) zero s h f c = rw c
  connect_loop-connects zero (suc n) s h f c = absurd (omega arith)
  connect_loop-connects (suc left) (suc n) s h f c =
      rw f.0 (connect_loop-connects left n (N.connect s fd a port).1 (omega arith) f.1 c)

  connect_loop-gives_up :
      (left n : ℕ) (s : N.State)
      → left < n
      → Fails n s
      → connect_loop N left fd a port s ≡ (none, close_any N fd (after (suc left) s))
  unfolding connect_loop after
  connect_loop-gives_up left zero s h f = absurd (omega arith)
  connect_loop-gives_up zero (suc n) s h f = rw f.0
  connect_loop-gives_up (suc left) (suc n) s h f =
      rw f.0 (connect_loop-gives_up left n (N.connect s fd a port).1 (omega arith) f.1)

  connect_loop-retries :
      (left n : ℕ) (s : N.State)
      → Fails n s
      → (N.connect (after n s) fd a port).0 ≡ true
      → connect_loop N left fd a port s ≡ (
          if leb n left
          then (fd, (N.connect (after n s) fd a port).1)
          else (none, close_any N fd (after (suc left) s)))
  connect_loop-retries left n s f c = elim (Bool-cases (leb n left)) [
    | inl few ↦
        let few_le : n ≤ left = ground arith in rw few (connect_loop-connects left n s few_le f c)
    | inr many ↦
        let many_lt : left < n = ground arith in rw many (connect_loop-gives_up left n s many_lt f)
  ]

-- If the address is well formed, some number of calls of `connect` in a row fail and the next one
-- succeeds, then `connect_to_socket` returns the descriptor of `socket` in the state behind that
-- call if those that fail are 150 at most, and otherwise -1, with the descriptor closed after 151
-- calls.
pub connect_to_socket-retries :
    (N : Sockets) (ip : List ℕ) (port n : ℕ) (s s' : N.State) (fd : Option ℕ) (a : N.Address)
    → N.socket s ≡ (fd, s')
    → N.inet_pton ip ≡ some a
    → Fails N fd a port n s'
    → (N.connect (after N fd a port n s') fd a port).0 ≡ true
    → connect_to_socket N ip port s ≡ (
        if leb n 150
        then (fd, (N.connect (after N fd a port n s') fd a port).1)
        else (none, close_any N fd (after N fd a port 151 s')))
unfolding connect_to_socket
connect_to_socket-retries N ip port n s s' fd a made known f c =
    rw (known, connect_to_socket) (rw made (connect_loop-retries N fd a port 150 n s' f c))
