-- ===== src/Device/Mailbox/Rounds.antt =====
-- The rounds of `pushThread` against the steps of the hand-over.
use so2_final.Base.{
  ◌≡◌, ◌⊎◌, refl, sym, ◌∙◌, ap, Bool, Bool-cases, true, false, Option, none, some, [], ◌∷◌, ◌++◌,
  Error, Result, ok, err, hang, arith, inl, inr,
}
use so2_final.Network.Channel.{Channel}
use so2_final.Files.System.{FileSystem}
use so2_final.Files.Manager.{FileManager}
use so2_final.Transfer.{Host}
use so2_final.Device.Mailbox.{Mailbox, push_round, push_command_to, after_push}
use so2_final.Device.Mailbox.Handover.{
  Trace, idle, ended, Reach, here, next, take, finish, fail, leave, stop,
}

module _ (C : Channel) (F : FileSystem) (f : FileManager) where
  -- What the thread has come to behind a round: it has ended without a push, it waits again and
  -- the command has been pushed, or it has ended by the push's exception.
  abbrev pub Follows : Trace → Host C F → Trace → Host C F → Type 0
  Follows t h u h' =
      let push = push_command_to C F f t.mailbox.push_type t.mailbox.push_command h in
      ((t.mailbox.stop_requested ≡ true) × (u.phase ≡ ended) × (u.pushed ≡ t.pushed) × (h' ≡ h))
      ⊎ (((push ≡ ok tt h')
            × (u.phase ≡ idle)
            × (u.pushed ≡ t.pushed ++ ((t.mailbox.push_type, t.mailbox.push_command) ∷ [])))
          ⊎ ((x : Error) × (push ≡ err x h') × (u.phase ≡ ended) × (u.pushed ≡ t.pushed)))

  mailbox_or : Mailbox → Option (Mailbox × Host C F) → Mailbox
  mailbox_or m none = m
  mailbox_or m (some (m', h)) = m'

  host_or : Host C F → Option (Mailbox × Host C F) → Host C F
  host_or h none = h
  host_or h (some (m', h')) = h'

  after_push-Reach :
      (stops : Bool) (t : Trace) (m : Mailbox) (h h' : Host C F) (r : Result (Host C F) (Unit {0}))
      → t.phase ≡ idle
      → t.mailbox.stop_requested ≡ false
      → t.mailbox.send_push ≡ true
      → push_command_to C F f t.mailbox.push_type t.mailbox.push_command h ≡ r
      → after_push C F f (record (t.mailbox) { stop_requested = stops }) r ≡ some (m, h')
      → (u : Trace) × Reach t u × (u.mailbox ≡ m) × (u.posted ≡ t.posted) × Follows t h u h'
  unfolding mailbox_or host_or
  after_push-Reach true t m h h' (ok a g) i go full p e = (
    _,
    next (next (next here (take i go full)) stop) (finish refl),
    ap (mailbox_or m) e,
    refl,
    inr (inl (p ∙ ap (ok tt) (ap (host_or h) e), refl, refl)),
  )
  after_push-Reach false t m h h' (ok a g) i go full p e = (
    _,
    next (next here (take i go full)) (finish refl),
    ap (λ b. record (t.mailbox) { send_push = false; locked = false; stop_requested = b }) go
        ∙ ap (mailbox_or m) e,
    refl,
    inr (inl (p ∙ ap (ok tt) (ap (host_or h) e), refl, refl)),
  )
  after_push-Reach stops t m h h' (err x g) i go full p e = (
    _,
    next (next here (take i go full)) (fail refl),
    ap (mailbox_or m) e,
    refl,
    inr (inr (x, p ∙ ap (err x) (ap (host_or h) e), refl, refl)),
  )
  after_push-Reach stops t m h h' (hang w) i go full p e = absurd (ground arith)

  push_round_stopped :
      (stops : Bool) (m : Mailbox) (h : Host C F)
      → m.stop_requested ≡ true
      → push_round C F f stops (m, h) ≡ some (m, h)
  unfolding push_round
  push_round_stopped stops m h stopped = rw stopped

  push_round_full :
      (stops : Bool) (m : Mailbox) (h : Host C F)
      → m.stop_requested ≡ false
      → m.send_push ≡ true
      → push_round C F f stops (m, h)
        ≡ after_push C F f
            (record m { stop_requested = stops })
            (push_command_to C F f m.push_type m.push_command h)
  unfolding push_round
  push_round_full stops m h go full = rw (go, full)

  push_round_empty :
      (stops : Bool) (m : Mailbox) (h : Host C F)
      → m.stop_requested ≡ false
      → m.send_push ≡ false
      → push_round C F f stops (m, h) ≡ none
  unfolding push_round
  push_round_empty stops m h go empty = rw (go, empty)

  -- A round of `pushThread` that starts at the condition and ends, whether or not the device is
  -- told to stop between the test and the end of the push, is a sequence of steps of the hand-over
  -- in which nothing is posted. It leads to the mailbox that the round leaves, and to one of three
  -- ends: the device was stopped, nothing was pushed or sent, and the thread has ended; the push
  -- of the command that waits has returned, the command has been added to those pushed, and the
  -- thread waits again; or that push has thrown, nothing was added, and the thread has ended.
  -- Connection and files are those behind the push.
  pub push_round-Reach :
      (stops : Bool) (t : Trace) (h : Host C F) (m : Mailbox) (h' : Host C F)
      → t.phase ≡ idle
      → push_round C F f stops (t.mailbox, h) ≡ some (m, h')
      → (u : Trace) × Reach t u × (u.mailbox ≡ m) × (u.posted ≡ t.posted) × Follows t h u h'
  unfolding mailbox_or host_or
  push_round-Reach stops t h m h' i e = elim (Bool-cases t.mailbox.stop_requested) [
    | inl stopped ↦
        let same = sym (push_round_stopped stops t.mailbox h stopped) ∙ e in
        (
          _,
          next here (leave i stopped),
          ap (mailbox_or m) same,
          refl,
          inl (stopped, refl, refl, sym (ap (host_or h) same)),
        )
    | inr go ↦ elim (Bool-cases t.mailbox.send_push) [
      | inl full ↦
          after_push-Reach stops t m h h'
            (push_command_to C F f t.mailbox.push_type t.mailbox.push_command h) i go full refl
            (sym (push_round_full stops t.mailbox h go full) ∙ e)
      | inr empty ↦
          let waits : ◌≡◌ {A = Option (Mailbox × Host C F)} none (some (m, h')) =
            sym (push_round_empty stops t.mailbox h go empty) ∙ e in
          absurd (ground arith)
    ]
  ]
