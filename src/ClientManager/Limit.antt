-- ===== src/ClientManager/Limit.antt =====
-- `handle_new_connection`: the test of the number of devices, and the thread interleavings of
-- several connections of one client.
use so2_final.Base.{
  ℕ, ◌≤◌, ◌≡◌, refl, Bool, false, List, [], ◌∷◌, ◌++◌, length, length-append, append_assoc,
  append-nil, ◌==◌, if◌then◌else◌, arith,
}
use so2_final.ClientManager.{max_devices}

-- The test: true if the connection is refused.
unfoldable pub is_full : List ℕ → Bool
is_full devices = length devices == max_devices

-- One connection whose handler runs alone, up to the registration of its device.
unfoldable pub connect_alone : ℕ → List ℕ → List ℕ
unfolding is_full
connect_alone device devices = if is_full devices then devices else devices ++ (device ∷ [])

-- Handlers that run one after the other keep the limit.
pub connect_alone-limit :
    (device : ℕ) (devices : List ℕ)
    → length devices ≤ max_devices
    → length (connect_alone device devices) ≤ max_devices
unfolding connect_alone
connect_alone-limit device devices h = ground (arith, length-append devices (device ∷ []))

-- The registered devices, and the connections that have passed the test and whose device is
-- still being made: the mutex is taken only after that.
pub record Gate : Type 0 where
  pub devices : List ℕ
  pub passed : List ℕ

pub data Step (g : Gate) : Gate → Type 0 where
  pass : (device : ℕ) → is_full g.devices ≡ false → Step g (record g { passed = device ∷ g.passed })
  register :
      (device : ℕ) (others : List ℕ)
      → g.passed ≡ device ∷ others
      → Step g (record { devices = g.devices ++ (device ∷ []); passed = others })

pub data Reach (g : Gate) : Gate → Type 0 where
  here : Reach g g
  next : {t u : Gate} → Reach g t → Step t u → Reach g u

abbrev pub closed_gate : Gate
closed_gate = record { devices = []; passed = [] }

pass_many : (ds : List ℕ) → Reach closed_gate (record { devices = []; passed = ds })
unfolding is_full
pass_many [] = here
pass_many (d ∷ ds) = next (pass_many ds) (pass d refl)

register_many :
    (done ds : List ℕ)
    → Reach closed_gate (record { devices = done; passed = ds })
    → Reach closed_gate (record { devices = done ++ ds; passed = [] })
register_many done [] r = rw append-nil r
register_many done (d ∷ ds) r =
    rw (← append_assoc done (d ∷ []) ds)
      (register_many (done ++ (d ∷ [])) ds (next r (register d ds refl)))

-- If the handlers of several connections run together, then from no devices on, any list of
-- devices, however long, can come to be registered.
pub Reach-any : (ds : List ℕ) → Reach closed_gate (record { devices = ds; passed = [] })
Reach-any ds = register_many [] ds (pass_many ds)
