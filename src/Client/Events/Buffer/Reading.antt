-- ===== src/Client/Events/Buffer/Reading.antt =====
-- What the loops of `Client::handleFileThread` make of the bytes of inotify's events.
use so2_final.Base.{
  >>-alike, >>-assoc, drop-front, ok, ℕ, zero, suc, ◌+◌, ◌≤◌, ◌<◌, ◌≡◌, inl, inr, refl, sym, ap,
  ◌∙◌, Option, none, some, List, [], ◌∷◌, ◌++◌, map, length, drop, length-append, All, ◌>>◌, arith,
}
use so2_final.Network.ByteOrder.{ByteOrder, IsMemory}
use so2_final.Network.Channel.{Channel}
use so2_final.Files.System.{FileSystem}
use so2_final.Transfer.{Host}
use so2_final.Client.Events.{Event, handle_event, handle_events}
use so2_final.Client.Events.Buffer.{event_at, events_loop, events_in, watch_changes}
use so2_final.Client.Events.Buffer.Layout.{
  Notice, IsLaidOut, room, told, IsRead, told_in, until_zero-zeros, notice_bytes, notices_bytes,
  length-notice_bytes, event_at-notice, read_bytes,
}

module _ (h : ByteOrder) (k : IsMemory h) where
  events_loop-step :
      (fuel : ℕ) (bs : List ℕ)
      → 0 < length bs
      → events_loop h (suc fuel) bs
        ≡ event_at h bs ∷ events_loop h fuel (drop (16 + (event_at h bs).len) bs)
  unfolding events_loop
  events_loop-step fuel [] some_left = absurd (omega arith)
  events_loop-step fuel (b ∷ bs) some_left = refl

  events_loop-notice :
      (fuel : ℕ) (n : Notice) (rest : List ℕ)
      → IsLaidOut n
      → events_loop h (suc fuel) (notice_bytes h k n ++ rest)
        ≡ event_at h (notice_bytes h k n ++ rest) ∷ events_loop h fuel rest
  events_loop-notice fuel n rest laid =
      let long : 0 < length (notice_bytes h k n ++ rest) =
        omega (arith, length-append (notice_bytes h k n) rest, length-notice_bytes h k n) in
      let e : 16 + (event_at h (notice_bytes h k n ++ rest)).len ≡ 16 + room n =
        ap (λ v. 16 + v.len) (event_at-notice h k n rest laid) in
      events_loop-step fuel (notice_bytes h k n ++ rest) long
      ∙ ap (λ r. event_at h (notice_bytes h k n ++ rest) ∷ events_loop h fuel r)
          (ap (λ m. drop m (notice_bytes h k n ++ rest)) e
            ∙ drop-front (16 + room n) (notice_bytes h k n) rest (length-notice_bytes h k n))

  module _ (C : Channel) (F : FileSystem) where
    handle_event-nameless : (e : Event) (s : Host C F) → e.len ≡ 0 → handle_event C F e s ≡ ok tt s
    unfolding handle_event
    handle_event-nameless e s bare = rw bare refl

    handle_event-told :
        (n : Notice) (rest : List ℕ) (s : Host C F)
        → IsLaidOut n
        → handle_event C F (event_at h (notice_bytes h k n ++ rest)) s ≡ handle_event C F (told n) s
    handle_event-told n rest s laid = elim (laid.closed) [
      | inl bare ↦
          handle_event-nameless (event_at h (notice_bytes h k n ++ rest)) s
            (ap (λ v. v.len) (event_at-notice h k n rest laid) ∙ bare)
          ∙ sym (handle_event-nameless (told n) s bare)
      | inr ended ↦
          ap (λ v. handle_event C F v s)
            (event_at-notice h k n rest laid
              ∙ ap (λ name. record { mask = n.mask; len = room n; name = name })
                  (until_zero-zeros n.name rest n.zeros laid.unbroken ended))
    ]

    handle_events-told :
        (fuel : ℕ) (ns : List Notice) (s : Host C F)
        → All IsLaidOut ns
        → length (notices_bytes h k ns) ≤ fuel
        → handle_events C F (events_loop h fuel (notices_bytes h k ns)) s
          ≡ handle_events C F (map told ns) s
    unfolding notices_bytes handle_events events_loop
    handle_events-told fuel [] s laid enough = refl
    handle_events-told zero (n ∷ ns) s laid enough = absurd (
        omega (
          arith,
          length-append (notice_bytes h k n) (notices_bytes h k ns),
          length-notice_bytes h k n,
        ))
    handle_events-told (suc fuel) (n ∷ ns) s (laid, later) enough =
        let enough' : length (notices_bytes h k ns) ≤ fuel = omega (
          arith,
          length-append (notice_bytes h k n) (notices_bytes h k ns),
          length-notice_bytes h k n,
        ) in
        ap (λ es. handle_events C F es s) (events_loop-notice fuel n (notices_bytes h k ns) laid)
        ∙ >>-alike (handle_event C F (event_at h (notice_bytes h k n ++ notices_bytes h k ns)))
            (handle_event C F (told n)) _ _ s (handle_event-told n (notices_bytes h k ns) s laid)
            (λ s'. handle_events-told fuel ns s' later enough')

    handle_events-append :
        (es fs : List Event) (s : Host C F)
        → handle_events C F (es ++ fs) s ≡ (handle_events C F es >> handle_events C F fs) s
    unfolding handle_events
    handle_events-append [] fs s = refl
    handle_events-append (e ∷ es) fs s =
        >>-alike (handle_event C F e) (handle_event C F e) _ _ s refl (handle_events-append es fs)
        ∙ >>-assoc (handle_event C F e) (handle_events C F es) (handle_events C F fs) s

    -- If the numbers of every event fit 32 bits, and its name has no zero byte and is empty
    -- without padding or has a zero byte behind it, then on a host that loads what it has stored
    -- the loops of `handleFileThread` over the bytes of any reads, failed ones among them, deal
    -- with exactly those events, in order, whatever the connection and the files do.
    pub watch_changes-notices :
        (reads : List (Option (List Notice))) (s : Host C F)
        → All IsRead reads
        → watch_changes h C F (map (read_bytes h k) reads) s ≡ handle_events C F (told_in reads) s
    unfolding watch_changes events_in
    watch_changes-notices [] s laid = unfold handle_events in refl
    watch_changes-notices (none ∷ reads) s (laid, later) = watch_changes-notices reads s later
    watch_changes-notices (some ns ∷ reads) s (laid, later) =
        >>-alike (handle_events C F (events_in h (notices_bytes h k ns)))
          (handle_events C F (map told ns)) _ _ s
          (handle_events-told (length (notices_bytes h k ns)) ns s laid (omega arith))
          (λ t. watch_changes-notices reads t later)
        ∙ sym (handle_events-append (map told ns) (told_in reads) s)
