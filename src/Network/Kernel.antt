-- ===== src/Network/Kernel.antt =====
-- The socket calls `send` and `recv`, which the operating system implements: a parameter, with
-- what the code relies on.
use so2_final.Base.{ℕ, suc, ◌≤◌, ◌≡◌, List, [], ◌∷◌, ◌++◌, length, take}

-- What `send` returns: -1, or how many bytes the kernel took.
pub data Sent {ℓ} (C : Type ℓ) : Type ℓ where
  refused : C → Sent C
  took : ℕ → C → Sent C

-- What `recv` returns: -1, or the bytes read; none of them means that the peer closed.
pub data Received {ℓ} (C : Type ℓ) : Type ℓ where
  broken : C → Received C
  got : List ℕ → C → Received C

pub record Kernel : Type 1 where
  pub Conn : Type 0
  pub send : Conn → List ℕ → Sent Conn
  pub recv : Conn → ℕ → Received Conn

-- A connection that stays up. `incoming` is what the peer has written and the program has not
-- read, `outgoing` what the kernel took. A call may transfer any part of what it could.
pub record IsReliable (K : Kernel) : Type 0 where
  pub incoming : K.Conn → List ℕ
  pub outgoing : K.Conn → List ℕ
  pub send-took :
      (c : K.Conn) (b : ℕ) (bs : List ℕ)
      → (n : ℕ) × (c' : K.Conn) × (K.send c (b ∷ bs) ≡ took (suc n) c')
        × (n ≤ length bs)
        × (outgoing c' ≡ outgoing c ++ (b ∷ take n bs))
        × (incoming c' ≡ incoming c)
  pub recv-got :
      (c : K.Conn) (n b : ℕ) (bs : List ℕ)
      → incoming c ≡ b ∷ bs
      → (segment : List ℕ) × (c' : K.Conn) × (K.recv c (suc n) ≡ got (b ∷ segment) c')
        × (length segment ≤ n)
        × (segment ++ incoming c' ≡ bs)
        × (outgoing c' ≡ outgoing c)

-- The peer has closed the connection: once all is read, `recv` returns 0, and does so again.
pub record IsClosed (K : Kernel) (c : K.Conn) : Type 0 where
  pub recv-end : (n : ℕ) → K.recv c n ≡ got [] c
