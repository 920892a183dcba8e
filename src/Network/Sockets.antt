-- ===== src/Network/Sockets.antt =====
-- The calls that make and close sockets, which the operating system implements: a parameter,
-- with what the code relies on. -1 is `none`; a call that returns 0 or -1 returns a Boolean.
use so2_final.Base.{ℕ, ◌≡◌, Bool, Option, none, some, List, [], ◌∷◌, ◌==◌, if◌then◌else◌}

pub record Sockets : Type 1 where
  pub State : Type 0
  pub Address : Type 0
  pub socket : State → Option ℕ × State
  -- To any address and port.
  pub bind : State → ℕ → Bool × State
  -- To any address and this port.
  pub bind_port : State → ℕ → ℕ → Bool × State
  -- `SO_REUSEADDR` of `setsockopt`.
  pub reuse_address : State → ℕ → Bool × State
  pub listen : State → ℕ → ℕ → Bool × State
  -- The port that `getsockname` reports, in host order.
  pub port_of : State → ℕ → Option ℕ
  -- The text that `inet_ntop` makes of the address that `getsockname` reports.
  pub ip_of : State → ℕ → Option (List ℕ)
  pub accept : State → ℕ → Option ℕ × State
  pub inet_pton : List ℕ → Option Address
  pub connect : State → Option ℕ → Address → ℕ → Bool × State
  pub shutdown : State → ℕ → State
  pub close : State → ℕ → State

-- The list without the first occurrence.
abbrev pub remove : ℕ → List ℕ → List ℕ
remove fd [] = []
remove fd (d ∷ ds) = if d == fd then ds else d ∷ remove fd ds

-- `opened` are the descriptors that the process has open.
pub record IsSockets (N : Sockets) : Type 0 where
  pub opened : N.State → List ℕ
  pub socket-opened :
      (s s' : N.State) (fd : ℕ) → N.socket s ≡ (some fd, s') → opened s' ≡ fd ∷ opened s
  pub socket-failed : (s s' : N.State) → N.socket s ≡ (none, s') → opened s' ≡ opened s
  pub bind-opened : (s : N.State) (fd : ℕ) → opened (N.bind s fd).1 ≡ opened s
  pub bind_port-opened : (s : N.State) (fd port : ℕ) → opened (N.bind_port s fd port).1 ≡ opened s
  pub reuse_address-opened : (s : N.State) (fd : ℕ) → opened (N.reuse_address s fd).1 ≡ opened s
  pub listen-opened : (s : N.State) (fd n : ℕ) → opened (N.listen s fd n).1 ≡ opened s
  pub connect-opened :
      (s : N.State) (fd : Option ℕ) (a : N.Address) (port : ℕ)
      → opened (N.connect s fd a port).1 ≡ opened s
  pub accept-opened :
      (s s' : N.State) (fd d : ℕ) → N.accept s fd ≡ (some d, s') → opened s' ≡ d ∷ opened s
  pub accept-failed : (s s' : N.State) (fd : ℕ) → N.accept s fd ≡ (none, s') → opened s' ≡ opened s
  pub shutdown-opened : (s : N.State) (fd : ℕ) → opened (N.shutdown s fd) ≡ opened s
  pub close-opened : (s : N.State) (fd : ℕ) → opened (N.close s fd) ≡ remove fd (opened s)
