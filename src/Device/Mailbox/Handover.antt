-- ===== src/Device/Mailbox/Handover.antt =====
-- Commands posted to a device against commands that its push thread has taken up.
use so2_final.Base.{
  ℕ, ◌≡◌, ◌≢◌, Bool-cases, inl, inr, refl, sym, ap, ◌∙◌, true, false, none, some, List, [], ◌∷◌,
  ◌++◌, append-nil, if◌then◌else◌, arith,
}
use so2_final.Device.Mailbox.{Mailbox, send_push_to, new_mailbox}

abbrev pub Command : Type 0
Command = ℕ × List ℕ

-- Where the push thread is: at its condition, between the test behind it and the end of the push,
-- or at its end.
pub data Phase : Type 0 where
  idle pushing ended : Phase

-- The mailbox with what has been posted to it and what has been pushed, in order.
pub record Trace : Type 0 where
  pub mailbox : Mailbox
  pub posted : List Command
  pub pushed : List Command
  pub phase : Phase

-- What the threads can do next. A device can be told to stop at any time. A push that throws has
-- sent an unknown part of the command.
pub data Step (t : Trace) : Trace → Type 0 where
  post :
      (kind : ℕ) (command : List ℕ) (m : Mailbox)
      → send_push_to kind command t.mailbox ≡ some m
      → Step t (record t { mailbox = m; posted = t.posted ++ ((kind, command) ∷ []) })
  take :
      t.phase ≡ idle
      → t.mailbox.stop_requested ≡ false
      → t.mailbox.send_push ≡ true
      → Step t (record t { phase = pushing })
  finish :
      t.phase ≡ pushing
      → Step t (record t {
        mailbox = record (t.mailbox) { send_push = false; locked = false };
        pushed = t.pushed ++ ((t.mailbox.push_type, t.mailbox.push_command) ∷ []);
        phase = idle;
      })
  fail :
      t.phase ≡ pushing
      → Step t (record t { mailbox = record (t.mailbox) { stop_requested = true }; phase = ended })
  leave : t.phase ≡ idle → t.mailbox.stop_requested ≡ true → Step t (record t { phase = ended })
  stop : Step t (record t { mailbox = record (t.mailbox) { stop_requested = true } })

pub data Reach (s : Trace) : Trace → Type 0 where
  here : Reach s s
  next : {t u : Trace} → Reach s t → Step t u → Reach s u

abbrev pub start : ℕ → Trace
start unset = record { mailbox = new_mailbox unset; posted = []; pushed = []; phase = idle }

-- The command that waits in the mailbox.
abbrev pub waiting : Mailbox → List Command
waiting m = if m.send_push then (m.push_type, m.push_command) ∷ [] else []

pub record IsHandover (t : Trace) : Type 0 where
  pub accounted : t.posted ≡ t.pushed ++ waiting t.mailbox
  pub lock_held : t.mailbox.locked ≡ t.mailbox.send_push
  pub busy : t.phase ≡ pushing → t.mailbox.send_push ≡ true

Step-IsHandover : {t u : Trace} → Step t u → IsHandover t → IsHandover u
unfolding send_push_to
Step-IsHandover {t} (post kind command m e) v = ground (arith, append-nil t.pushed)
Step-IsHandover (take idles go full) v = record {
  accounted = v.accounted;
  lock_held = v.lock_held;
  busy = λ p. full;
}
Step-IsHandover {t} (finish pushes) v =
    let taken : waiting t.mailbox ≡ (t.mailbox.push_type, t.mailbox.push_command) ∷ [] =
      rw (v.busy pushes) in
    record {
      accounted = v.accounted ∙ ap (◌++◌ t.pushed) taken ∙ sym (append-nil _);
      lock_held = refl;
      busy = λ p. absurd (cc p);
    }
Step-IsHandover (fail pushes) v = record {
  accounted = v.accounted;
  lock_held = v.lock_held;
  busy = λ p. v.busy pushes;
}
Step-IsHandover (leave idles stopped) v = record {
  accounted = v.accounted;
  lock_held = v.lock_held;
  busy = λ p. absurd (cc p);
}
Step-IsHandover stop v = record { accounted = v.accounted; lock_held = v.lock_held; busy = v.busy }

-- From a new mailbox on, in every order of posts, of the beginnings, ends and failures of pushes,
-- and of stops, also of stops while a push is under way: the commands pushed are those posted, in
-- order and once each, but for at most one that waits; the lock is held exactly while one waits;
-- and one waits while a push is under way.
pub Reach-IsHandover : (unset : ℕ) {t : Trace} → Reach (start unset) t → IsHandover t
Reach-IsHandover unset here = record {
  accounted = refl;
  lock_held = refl;
  busy = λ p. absurd (cc p);
}
Reach-IsHandover unset (next r st) = Step-IsHandover st (Reach-IsHandover unset r)

abbrev IsBlocked : Trace → Type 0
IsBlocked t = (t.phase ≡ ended) × (t.mailbox.locked ≡ true)

Step-IsBlocked : {t u : Trace} → Step t u → IsBlocked t → IsBlocked u
unfolding send_push_to
Step-IsBlocked (post kind command m e) b = ground arith
Step-IsBlocked (take idles go full) b = absurd (cc (b.0, idles))
Step-IsBlocked (finish pushes) b = absurd (cc (b.0, pushes))
Step-IsBlocked (fail pushes) b = (refl, b.1)
Step-IsBlocked (leave idles stopped) b = (refl, b.1)
Step-IsBlocked stop b = b

Reach-IsBlocked : {t u : Trace} → IsBlocked t → Reach t u → IsBlocked u
Reach-IsBlocked b here = b
Reach-IsBlocked b (next r st) = Step-IsBlocked st (Reach-IsBlocked b r)

unpushed-locked : (t : Trace) → IsHandover t → t.posted ≢ t.pushed → t.mailbox.locked ≡ true
unpushed-locked t v unpushed = elim (Bool-cases t.mailbox.send_push) [
  | inl full ↦ v.lock_held ∙ full
  | inr empty ↦
      let none_left : waiting t.mailbox ≡ [] = rw empty in
      absurd (unpushed (v.accounted ∙ ap (◌++◌ t.pushed) none_left ∙ append-nil t.pushed))
]

-- If the push thread of a device has ended, in any order of steps from a new mailbox on, and not
-- every command that was posted has been pushed, then after any further steps every post to the
-- device waits.
pub Reach-blocked :
    (unset : ℕ) {t u : Trace}
    → Reach (start unset) t
    → t.phase ≡ ended
    → t.posted ≢ t.pushed
    → Reach t u
    → (kind : ℕ) (command : List ℕ) → send_push_to kind command u.mailbox ≡ none
unfolding send_push_to
Reach-blocked unset {t} reached over unpushed r kind command =
    let lost = unpushed-locked t (Reach-IsHandover unset reached) unpushed in
    let (_, held) = Reach-IsBlocked (over, lost) r in rw held
