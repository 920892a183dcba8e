-- ===== src/Device/Arrival/Balance.antt =====
-- The descriptors that the constructor of `Device` opens, and the managers that hold them.
use so2_final.Base.{
  Silence, ℕ, ◌+◌, ◌≡◌, ◌≢◌, sym, subst, refl, ap, ◌∙◌, none, List, M, Result, ok, err, hang, ◌>>=◌,
  ◌>>◌, arith, ==_refl,
}
use so2_final.Network.Packet.{PacketType}
use so2_final.Network.Channel.{Channel, send_text}
use so2_final.Network.Sockets.{Sockets, IsSockets}
use so2_final.Network.Setup.{Endpoint, create_and_setup_socket, accept_connection}
use so2_final.Network.Setup.Balance.{
  count, held, Balances, IsOpen, create_and_setup_socket-Balances, accept_connection-Balances,
}
use so2_final.Decimal.{to_string}
use so2_final.Device.Arrival.{Arrival, on_command, on_push, on_watcher, make_device}

module _ (C : Channel) (N : Sockets) (L : IsSockets N) (ds : List ℕ) where
  -- What is open is what was, and what the two managers hold.
  abbrev pub Owns : Arrival C N → Type 0
  Owns a =
      (x : ℕ)
      → count x (L.opened a.sockets)
        ≡ count x ds + (count x (held a.push) + count x (held a.watcher))

  -- Whether a call returns or throws, the account is right; if it returns, `P` holds too.
  abbrev pub Leaves {ℓ} : {A : Type ℓ} → (Arrival C N → Type 0) → Result (Arrival C N) A → Type 0
  Leaves P (ok x a) = P a × Owns a
  Leaves P (err y a) = Owns a
  Leaves P (hang w) = ⊥

  Leaves-then {ℓ κ} :
      {A : Type ℓ} {B : Type κ} (P Q : Arrival C N → Type 0) (r : Result (Arrival C N) A)
      (f : A → M (Arrival C N) B)
      → Leaves P r
      → ((x : A) (a : Arrival C N) → P a → Owns a → Leaves Q (f x a))
      → Leaves Q (elim r as (λ _. Result (Arrival C N) B) [
        | ok x a ↦ f x a
        | err y a ↦ err y a
        | hang w ↦ hang w
      ])
  Leaves-then P Q (ok x a) f (p, o) g = g x a p o
  Leaves-then P Q (err y a) f o g = o
  Leaves-then P Q (hang w) f h g = h

  on_push-Leaves {ℓ} :
      {A : Type ℓ} (a : Arrival C N) (r : Result (Endpoint N) A)
      → Owns a
      → Balances N L (record { sockets = a.sockets; socket_fd = a.push }) r
      → Leaves
          (λ b. b.watcher ≡ a.watcher)
          (elim r as (λ _. Result (Arrival C N) A) [
            | ok x e ↦ ok x (record a { sockets = e.sockets; push = e.socket_fd })
            | err x e ↦ err x (record a { sockets = e.sockets; push = e.socket_fd })
            | hang w ↦ hang w
          ])
  on_push-Leaves a (ok y e) o b = (refl, λ x. omega (arith, o x, b x))
  on_push-Leaves a (err y e) o b = λ x. omega (arith, o x, b x)
  on_push-Leaves a (hang w) o b = b

  on_watcher-Leaves {ℓ} :
      {A : Type ℓ} (a : Arrival C N) (r : Result (Endpoint N) A)
      → Owns a
      → Balances N L (record { sockets = a.sockets; socket_fd = a.watcher }) r
      → Leaves
          (λ b. b.push ≡ a.push)
          (elim r as (λ _. Result (Arrival C N) A) [
            | ok x e ↦ ok x (record a { sockets = e.sockets; watcher = e.socket_fd })
            | err x e ↦ err x (record a { sockets = e.sockets; watcher = e.socket_fd })
            | hang w ↦ hang w
          ])
  on_watcher-Leaves a (ok y e) o b = (refl, λ x. omega (arith, o x, b x))
  on_watcher-Leaves a (err y e) o b = λ x. omega (arith, o x, b x)
  on_watcher-Leaves a (hang w) o b = b

  on_command-Leaves {ℓ} :
      {A : Type ℓ} (a : Arrival C N) (r : Result C.Conn A)
      → Owns a
      → ((w : Silence) → r ≢ hang w)
      → Leaves
          (λ b. b.watcher ≡ a.watcher)
          (elim r as (λ _. Result (Arrival C N) A) [
            | ok x c ↦ ok x (record a { conn = c })
            | err e c ↦ err e (record a { conn = c })
            | hang w ↦ hang w
          ])
  on_command-Leaves a (ok y c) o b = (refl, o)
  on_command-Leaves a (err y c) o b = o
  on_command-Leaves a (hang w) o b = b w refl

  -- What a manager holds is open.
  push-IsOpen :
      (a : Arrival C N) → Owns a → IsOpen N L (record { sockets = a.sockets; socket_fd = a.push })
  push-IsOpen a o fd e =
      let one : count fd (held a.push) ≡ 1 = ap (λ h. count fd (held h)) e ∙ rw (==_refl fd) refl in
      omega (arith, o fd, one)

  watcher-IsOpen :
      (a : Arrival C N)
      → Owns a
      → IsOpen N L (record { sockets = a.sockets; socket_fd = a.watcher })
  watcher-IsOpen a o fd e =
      let one : count fd (held a.watcher) ≡ 1 =
        ap (λ h. count fd (held h)) e ∙ rw (==_refl fd) refl in
      omega (arith, o fd, one)

  Leaves-weaker {ℓ} :
      {A : Type ℓ} (P Q : Arrival C N → Type 0) (r : Result (Arrival C N) A)
      → ((a : Arrival C N) → P a → Q a)
      → Leaves P r
      → Leaves Q r
  Leaves-weaker P Q (ok x a) w (p, o) = (w a p, o)
  Leaves-weaker P Q (err y a) w o = o
  Leaves-weaker P Q (hang v) w h = h

  abbrev pub Anything : Arrival C N → Type 0
  Anything a = Unit {0}

  module _
      (sends : (t : PacketType) (n : ℕ) (text : List ℕ) (c : C.Conn) (w : Silence)
        → send_text C t n text c ≢ hang w) where
    accepting-Leaves :
        (a : Arrival C N)
        → Owns a
        → Leaves Anything
            ((on_push C N (accept_connection N) >> on_watcher C N (accept_connection N)) a)
    accepting-Leaves a o =
        Leaves-then _ Anything (on_push C N (accept_connection N) a) _
          (on_push-Leaves a
            (accept_connection N (record { sockets = a.sockets; socket_fd = a.push })) o
            (accept_connection-Balances N L (record { sockets = a.sockets; socket_fd = a.push })
              (push-IsOpen a o)))
          (λ _ b _ p.
            Leaves-weaker _ Anything (on_watcher C N (accept_connection N) b) (λ _ _. tt)
              (on_watcher-Leaves b
                (accept_connection N (record { sockets = b.sockets; socket_fd = b.watcher })) p
                (accept_connection-Balances N L
                  (record { sockets = b.sockets; socket_fd = b.watcher }) (watcher-IsOpen b p))))

    -- From the second listening socket on.
    watching-Leaves :
        (a : Arrival C N)
        → a.watcher ≡ none
        → Owns a
        → Leaves Anything (
            (do
              watcher_port ← on_watcher C N (create_and_setup_socket N)
              on_command C N (send_text C PacketType.port 1 (to_string watcher_port))
              on_push C N (accept_connection N)
              on_watcher C N (accept_connection N))
              a)
    watching-Leaves a fresh o =
        Leaves-then _ Anything (on_watcher C N (create_and_setup_socket N) a) _
          (on_watcher-Leaves a
            (create_and_setup_socket N (record { sockets = a.sockets; socket_fd = a.watcher })) o
            (subst
              (λ w.
                Balances N L (record { sockets = a.sockets; socket_fd = w })
                  (create_and_setup_socket N (record { sockets = a.sockets; socket_fd = w })))
              (sym fresh) (create_and_setup_socket-Balances N L a.sockets)))
          (λ port b _ p.
            Leaves-then _ Anything
              (on_command C N (send_text C PacketType.port 1 (to_string port)) b) _
              (on_command-Leaves b (send_text C PacketType.port 1 (to_string port) b.conn) p
                (sends PacketType.port 1 (to_string port) b.conn))
              (λ _ d _ q. accepting-Leaves d q))

    pub make_device-Leaves :
        (a : Arrival C N)
        → a.push ≡ none
        → a.watcher ≡ none
        → Owns a
        → Leaves Anything (make_device C N a)
    unfolding make_device
    make_device-Leaves a idle fresh o =
        Leaves-then _ Anything (on_push C N (create_and_setup_socket N) a) _
          (on_push-Leaves a
            (create_and_setup_socket N (record { sockets = a.sockets; socket_fd = a.push })) o
            (subst
              (λ w.
                Balances N L (record { sockets = a.sockets; socket_fd = w })
                  (create_and_setup_socket N (record { sockets = a.sockets; socket_fd = w })))
              (sym idle) (create_and_setup_socket-Balances N L a.sockets)))
          (λ port b w p.
            Leaves-then _ Anything
              (on_command C N (send_text C PacketType.port 1 (to_string port)) b) _
              (on_command-Leaves b (send_text C PacketType.port 1 (to_string port) b.conn) p
                (sends PacketType.port 1 (to_string port) b.conn))
              (λ _ d w' q. watching-Leaves d (w' ∙ w ∙ fresh) q))
