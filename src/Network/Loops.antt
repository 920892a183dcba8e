-- ===== src/Network/Loops.antt =====
-- The loops over `send` and `recv` in `sendPacket`, `receiveHeader` and `receivePayload`.
-- Each round transfers a byte at least, so as many rounds as bytes are wanted are enough; a loop
-- that needs more has met a round that transferred nothing.
use so2_final.Base.{
  endless, freed_twice, ℕ, zero, suc, ◌+◌, ◌-◌, ◌≤◌, ◌≡◌, refl, sym, ap, ◌∙◌, List, [], ◌∷◌, ◌++◌,
  length, drop, append_assoc, append-nil, length-append, length-drop, append_split,
  take-append-drop, M, ok, err, hang, send_failed, header_failed, closed_by_peer, arith,
}
use so2_final.Network.Kernel.{Kernel, IsReliable, IsClosed, refused, took, broken, got}

module _ (K : Kernel) where
  -- The list is what `buffer` holds from `total_sent` on.
  unfoldable pub send_loop : ℕ → List ℕ → M K.Conn (Unit {0})
  send_loop fuel [] c = ok tt c
  send_loop zero (b ∷ bs) c = hang endless
  send_loop (suc fuel) (b ∷ bs) c = elim (K.send c (b ∷ bs)) [
    | refused c' ↦ err send_failed c'
    | took n c' ↦ send_loop fuel (drop n (b ∷ bs)) c'
  ]

  -- `need` is `HEADER_SIZE - total_received`.
  unfoldable pub receive_header_loop : ℕ → ℕ → List ℕ → M K.Conn (List ℕ)
  receive_header_loop fuel zero acc c = ok acc c
  receive_header_loop zero (suc need) acc c = hang endless
  receive_header_loop (suc fuel) (suc need) acc c = elim (K.recv c (suc need)) [
    | broken c' ↦ err header_failed c'
    | got [] c' ↦ err closed_by_peer c'
    | got (b ∷ bs) c' ↦ receive_header_loop fuel (suc need - length (b ∷ bs)) (acc ++ (b ∷ bs)) c'
  ]

  -- Here a result of 0 is not tested for. On -1 the source deletes the payload and throws, and
  -- `~packet` deletes it again.
  unfoldable pub receive_payload_loop : ℕ → ℕ → List ℕ → M K.Conn (List ℕ)
  receive_payload_loop fuel zero acc c = ok acc c
  receive_payload_loop zero (suc need) acc c = hang endless
  receive_payload_loop (suc fuel) (suc need) acc c = elim (K.recv c (suc need)) [
    | broken c' ↦ hang freed_twice
    | got bs c' ↦ receive_payload_loop fuel (suc need - length bs) (acc ++ bs) c'
  ]

module _ (K : Kernel) where
  receive_header_loop_step :
      (fuel need : ℕ) (acc : List ℕ) (c : K.Conn) {c' : K.Conn} {b : ℕ} {bs : List ℕ}
      → K.recv c (suc need) ≡ got (b ∷ bs) c'
      → receive_header_loop K (suc fuel) (suc need) acc c
        ≡ receive_header_loop K fuel (suc need - length (b ∷ bs)) (acc ++ (b ∷ bs)) c'
  unfolding receive_header_loop
  receive_header_loop_step fuel need acc c r = rw (r, receive_header_loop)

  receive_payload_loop_step :
      (fuel need : ℕ) (acc : List ℕ) (c : K.Conn) {c' : K.Conn} {bs : List ℕ}
      → K.recv c (suc need) ≡ got bs c'
      → receive_payload_loop K (suc fuel) (suc need) acc c
        ≡ receive_payload_loop K fuel (suc need - length bs) (acc ++ bs) c'
  unfolding receive_payload_loop
  receive_payload_loop_step fuel need acc c r = rw (r, receive_payload_loop)

module _ (K : Kernel) (up : IsReliable K) where
  -- However the kernel splits the data, all of it goes out, once and in order.
  pub send_loop-sends :
      (fuel : ℕ) (bs : List ℕ) (c : K.Conn)
      → length bs ≤ fuel
      → (c' : K.Conn) × (send_loop K fuel bs c ≡ ok tt c')
        × (up.outgoing c' ≡ up.outgoing c ++ bs)
        × (up.incoming c' ≡ up.incoming c)
  unfolding send_loop
  send_loop-sends fuel [] c h = (c, refl, rw append-nil, refl)
  send_loop-sends zero (b ∷ bs) c h = absurd (omega arith)
  send_loop-sends (suc fuel) (b ∷ bs) c h =
      let (n, c', e, le, out, inc) = up.send-took c b bs in
      let (d, e', out', inc') =
        send_loop-sends fuel (drop n bs) c' (omega (arith, length-drop n bs)) in
      (d, rw (e, send_loop) e', out' ∙ rw out (rw append_assoc (rw take-append-drop)), inc' ∙ inc)

  pub receive_header_loop-receives :
      (fuel need : ℕ) (acc front rest : List ℕ) (c : K.Conn)
      → need ≤ fuel
      → length front ≡ need
      → up.incoming c ≡ front ++ rest
      → (c' : K.Conn) × (receive_header_loop K fuel need acc c ≡ ok (acc ++ front) c')
        × (up.incoming c' ≡ rest)
        × (up.outgoing c' ≡ up.outgoing c)
  unfolding receive_header_loop
  receive_header_loop-receives fuel zero acc [] rest c h l e = (c, rw append-nil, e, refl)
  receive_header_loop-receives fuel zero acc (b ∷ bs) rest c h l e = absurd (omega arith)
  receive_header_loop-receives zero (suc need) acc front rest c h l e = absurd (omega arith)
  receive_header_loop-receives (suc fuel) (suc need) acc [] rest c h l e = absurd (omega arith)
  receive_header_loop-receives (suc fuel) (suc need) acc (b ∷ bs) rest c h l e =
      let (segment, c', r, le, split, out) = up.recv-got c need b (bs ++ rest) e in
      let (more, p, q) = append_split segment (up.incoming c') bs rest split (omega arith) in
      let len : length bs ≡ length segment + length more =
        ap length p ∙ length-append segment more in
      let (d, e', inc', out') =
        receive_header_loop-receives fuel (suc need - length (b ∷ segment)) (acc ++ (b ∷ segment))
          more rest c' (omega arith) (omega arith) q in
      let whole : (acc ++ (b ∷ segment)) ++ more ≡ acc ++ (b ∷ bs) =
        append_assoc acc (b ∷ segment) more ∙ ap (λ t. acc ++ (b ∷ t)) (sym p) in
      (
        d,
        receive_header_loop_step K fuel need acc c r ∙ e' ∙ ap (λ t. ok t d) whole,
        inc',
        out' ∙ out,
      )

  pub receive_payload_loop-receives :
      (fuel need : ℕ) (acc front rest : List ℕ) (c : K.Conn)
      → need ≤ fuel
      → length front ≡ need
      → up.incoming c ≡ front ++ rest
      → (c' : K.Conn) × (receive_payload_loop K fuel need acc c ≡ ok (acc ++ front) c')
        × (up.incoming c' ≡ rest)
        × (up.outgoing c' ≡ up.outgoing c)
  unfolding receive_payload_loop
  receive_payload_loop-receives fuel zero acc [] rest c h l e = (c, rw append-nil, e, refl)
  receive_payload_loop-receives fuel zero acc (b ∷ bs) rest c h l e = absurd (omega arith)
  receive_payload_loop-receives zero (suc need) acc front rest c h l e = absurd (omega arith)
  receive_payload_loop-receives (suc fuel) (suc need) acc [] rest c h l e = absurd (omega arith)
  receive_payload_loop-receives (suc fuel) (suc need) acc (b ∷ bs) rest c h l e =
      let (segment, c', r, le, split, out) = up.recv-got c need b (bs ++ rest) e in
      let (more, p, q) = append_split segment (up.incoming c') bs rest split (omega arith) in
      let len : length bs ≡ length segment + length more =
        ap length p ∙ length-append segment more in
      let (d, e', inc', out') =
        receive_payload_loop-receives fuel (suc need - length (b ∷ segment)) (acc ++ (b ∷ segment))
          more rest c' (omega arith) (omega arith) q in
      let whole : (acc ++ (b ∷ segment)) ++ more ≡ acc ++ (b ∷ bs) =
        append_assoc acc (b ∷ segment) more ∙ ap (λ t. acc ++ (b ∷ t)) (sym p) in
      (
        d,
        receive_payload_loop_step K fuel need acc c r ∙ e' ∙ ap (λ t. ok t d) whole,
        inc',
        out' ∙ out,
      )

-- A peer that closes inside a payload is never noticed: no number of rounds ends the loop.
pub receive_payload_loop-hangs :
    (K : Kernel) (c : K.Conn) (closed : IsClosed K c) (fuel need : ℕ) (acc : List ℕ)
    → receive_payload_loop K fuel (suc need) acc c ≡ hang endless
unfolding receive_payload_loop
receive_payload_loop-hangs K c closed zero need acc = refl
receive_payload_loop-hangs K c closed (suc fuel) need acc =
    let same : suc need - 0 ≡ suc need = omega arith in
    receive_payload_loop_step K fuel need acc c (closed.recv-end (suc need))
    ∙ rw same (receive_payload_loop-hangs K c closed fuel need (acc ++ []))

-- Inside a header it is.
pub receive_header_loop-closed :
    (K : Kernel) (c : K.Conn) (closed : IsClosed K c) (fuel need : ℕ) (acc : List ℕ)
    → receive_header_loop K (suc fuel) (suc need) acc c ≡ err closed_by_peer c
unfolding receive_header_loop
receive_header_loop-closed K c closed fuel need acc =
    rw (closed.recv-end (suc need), receive_header_loop)
