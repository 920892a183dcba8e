-- ===== src/Client/Turns.antt =====
-- `watcher_push_lock`, which the file thread and the push thread of the client take in turns.
use so2_final.Base.{ℕ, ◌≡◌, refl, Bool, true, false, ◌==◌, arith}
use so2_final.Network.Packet.{number, write, end_of_file}

-- Whether the file thread sends a file under the lock.
pub data FileThread : Type 0 where
  watching sending : FileThread

-- Whether the push thread receives a file under the lock, and the type of the packet that
-- announced it.
pub data PushThread : Type 0 where
  listening : PushThread
  receiving : ℕ → PushThread

pub record Turns : Type 0 where
  pub locked : Bool
  pub file_thread : FileThread
  pub push_thread : PushThread

-- The test that ends the loop over the packets of a file: it is made on the announcement.
unfoldable pub loop_ends : ℕ → Bool
loop_ends announced = announced == number end_of_file

pub data Step (t : Turns) : Turns → Type 0 where
  begin_sending :
      t.locked ≡ false
      → t.file_thread ≡ watching
      → Step t (record t { locked = true; file_thread = sending })
  end_sending :
      t.file_thread ≡ sending → Step t (record t { locked = false; file_thread = watching })
  begin_receiving :
      (announced : ℕ)
      → announced ≡ number write
      → t.locked ≡ false
      → t.push_thread ≡ listening
      → Step t (record t { locked = true; push_thread = receiving announced })
  receive_chunk :
      (announced : ℕ) → t.push_thread ≡ receiving announced → loop_ends announced ≡ false → Step t t
  end_receiving :
      (announced : ℕ)
      → t.push_thread ≡ receiving announced
      → loop_ends announced ≡ true
      → Step t (record t { locked = false; push_thread = listening })

pub data Reach (s : Turns) : Turns → Type 0 where
  here : Reach s s
  next : {t u : Turns} → Reach s t → Step t u → Reach s u

abbrev pub new_turns : Turns
new_turns = record { locked = false; file_thread = watching; push_thread = listening }

-- Who holds the lock.
abbrev pub Holds : Bool → FileThread → PushThread → Type 0
Holds locked watching listening = locked ≡ false
Holds locked sending listening = locked ≡ true
Holds locked watching (receiving announced) = (locked ≡ true) × (announced ≡ number write)
Holds locked sending (receiving announced) = ⊥

abbrev pub IsTurns : Turns → Type 0
IsTurns t = Holds t.locked t.file_thread t.push_thread

started :
    (locked : Bool) (f : FileThread) (p : PushThread)
    → locked ≡ false
    → f ≡ watching
    → Holds locked f p
    → Holds true sending p
started locked watching listening e w v = refl
started locked sending p e w v = cc
started locked watching (receiving n) e w v = cc

finished :
    (locked : Bool) (f : FileThread) (p : PushThread)
    → f ≡ sending
    → Holds locked f p
    → Holds false watching p
finished locked f listening w v = refl
finished locked watching (receiving n) w v = cc
finished locked sending (receiving n) w v = absurd v

announced_write :
    (locked : Bool) (f : FileThread) (p : PushThread) (n : ℕ)
    → n ≡ number write
    → locked ≡ false
    → p ≡ listening
    → Holds locked f p
    → Holds true f (receiving n)
announced_write locked watching p n k free l v = (refl, k)
announced_write locked sending listening n k free l v = cc
announced_write locked sending (receiving m) n k free l v = absurd v

never_ends :
    (locked : Bool) (f : FileThread) (p : PushThread) (n : ℕ)
    → p ≡ receiving n
    → loop_ends n ≡ true
    → Holds locked f p
    → ⊥
unfolding loop_ends
never_ends locked watching listening n e k v = cc
never_ends locked sending listening n e k v = cc
never_ends locked watching (receiving m) n e k v = ground arith
never_ends locked sending (receiving m) n e k v = v

Step-IsTurns : {t u : Turns} → Step t u → IsTurns t → IsTurns u
unfolding loop_ends
Step-IsTurns {t} (begin_sending free w) v = started t.locked t.file_thread t.push_thread free w v
Step-IsTurns {t} (end_sending w) v = finished t.locked t.file_thread t.push_thread w v
Step-IsTurns {t} (begin_receiving n k free l) v =
    announced_write t.locked t.file_thread t.push_thread n k free l v
Step-IsTurns (receive_chunk n l k) v = v
Step-IsTurns {t} (end_receiving n l k) v =
    absurd (never_ends t.locked t.file_thread t.push_thread n l k v)

Reach-IsTurns : {t : Turns} → Reach new_turns t → IsTurns t
Reach-IsTurns here = refl
Reach-IsTurns (next r st) = Step-IsTurns st (Reach-IsTurns r)

-- The push thread receives a file under the lock, and the file thread does not send one.
abbrev pub IsStalled : ℕ → Turns → Type 0
IsStalled announced t =
    (t.push_thread ≡ receiving announced) × (t.file_thread ≡ watching) × (t.locked ≡ true)

stalled :
    (locked : Bool) (f : FileThread) (p : PushThread) (n : ℕ)
    → p ≡ receiving n
    → Holds locked f p
    → (f ≡ watching) × (locked ≡ true) × (n ≡ number write)
stalled locked watching listening n e v = cc
stalled locked sending listening n e v = cc
stalled locked watching (receiving m) n e v = ground arith
stalled locked sending (receiving m) n e v = absurd v

Step-IsStalled : {n : ℕ} {t u : Turns} → Step t u → n ≡ number write → IsStalled n t → IsStalled n u
unfolding loop_ends
Step-IsStalled (begin_sending free w) k v = ground arith
Step-IsStalled (end_sending w) k v = cc
Step-IsStalled (begin_receiving m k' free l) k v = ground arith
Step-IsStalled (receive_chunk m l k') k v = v
Step-IsStalled (end_receiving m l k') k v = ground arith

Reach-IsStalled :
    {n : ℕ} {t u : Turns} → n ≡ number write → IsStalled n t → Reach t u → IsStalled n u
Reach-IsStalled k v here = v
Reach-IsStalled k v (next r st) = Step-IsStalled st k (Reach-IsStalled k v r)

-- If the push thread of the client receives a file in some order of steps from the start on, then
-- in every order of steps from there on it still receives that file, `watcher_push_lock` stays
-- locked, and the file thread sends no file.
pub Reach-stalls :
    {t u : Turns} (n : ℕ)
    → Reach new_turns t
    → t.push_thread ≡ receiving n
    → Reach t u
    → IsStalled n u
Reach-stalls {t} n r e more =
    let (idle, held, announced) =
      stalled t.locked t.file_thread t.push_thread n e (Reach-IsTurns r) in
    Reach-IsStalled announced (e, idle, held) more
