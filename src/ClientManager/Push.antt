-- ===== src/ClientManager/Push.antt =====
-- Whom `handle_new_push` reaches.
use so2_final.Base.{
  ℕ, ◌≡◌, refl, ◌≢◌, true, false, none, some, List, [], ◌∷◌, ◌++◌, if◌then◌else◌, ◌==◌, All, map,
  arith, ◌⊎◌,
}
use so2_final.Device.Mailbox.{send_push_to}
use so2_final.ClientManager.{Member, push_to_devices}

-- A device that can take a command at once.
abbrev pub IsFree : Member → Type 0
IsFree d = d.mailbox.locked ≡ false

-- The command in the mailbox, and the lock taken.
abbrev pub notified : ℕ → List ℕ → Member → Member
notified kind content d = record d {
  mailbox = record (d.mailbox) {
    locked = true;
    send_push = true;
    push_type = kind;
    push_command = content;
  };
}

-- A device behind the first loop of `handle_new_push`.
abbrev pub passed : ℕ → ℕ → List ℕ → Member → Member
passed caller kind content d = if d.address == caller then d else notified kind content d

-- If every device but the caller can take a command at once, then `handle_new_push` puts the
-- command in the mailbox of each of them and leaves the caller and the order as they are.
pub push_to_devices-notifies :
    (caller kind : ℕ) (content : List ℕ) (ds : List Member)
    → All (λ d. (d.address ≡ caller) ⊎ IsFree d) ds
    → push_to_devices caller kind content ds
      ≡ some (map (λ d. if d.address == caller then d else notified kind content d) ds)
unfolding push_to_devices send_push_to
push_to_devices-notifies caller kind content [] h = refl
push_to_devices-notifies caller kind content (d ∷ ds) h =
    ground (arith, push_to_devices-notifies caller kind content ds h.1, h.0)

-- If the lock of one device other than the caller is taken, then `handle_new_push` waits before it
-- reaches the backups, whatever devices there are before and behind.
pub push_to_devices-waits :
    (caller kind : ℕ) (content : List ℕ) (front back : List Member) (d : Member)
    → d.address ≢ caller
    → d.mailbox.locked ≡ true
    → push_to_devices caller kind content (front ++ (d ∷ back)) ≡ none
unfolding push_to_devices send_push_to
push_to_devices-waits caller kind content [] back d other taken = ground arith
push_to_devices-waits caller kind content (x ∷ front) back d other taken =
    ground (arith, push_to_devices-waits caller kind content front back d other taken)
