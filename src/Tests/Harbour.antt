-- ===== src/Tests/Harbour.antt =====
-- A system that makes sockets: descriptors are counted up, and a number of attempts to connect
-- fail.
use so2_final.Base.{
  ℕ, ◌+◌, ◌-◌, ◌≡◌, refl, ap, ◌∙◌, sym, Option, true, none, some, List, [], ◌∷◌, ◌==◌,
}
use so2_final.Network.Sockets.{Sockets, IsSockets, remove}

pub record Quay : Type 0 where
  pub counter : ℕ
  pub fds : List ℕ
  pub refusals : ℕ

abbrev new_descriptor : Quay → Option ℕ × Quay
new_descriptor q = (some q.counter, record q { counter = q.counter + 1; fds = q.counter ∷ q.fds })

abbrev pub harbour : Sockets
harbour = record {
  State = Quay;
  Address = List ℕ;
  socket = new_descriptor;
  bind = λ q fd. (true, q);
  bind_port = λ q fd port. (true, q);
  reuse_address = λ q fd. (true, q);
  listen = λ q fd n. (true, q);
  port_of = λ q fd. some (4000 + fd);
  ip_of = λ q fd. some [];
  accept = λ q fd. new_descriptor q;
  inet_pton = λ text. some text;
  connect = λ q fd a port. (q.refusals == 0, record q { refusals = q.refusals - 1 });
  shutdown = λ q fd. q;
  close = λ q fd. record q { fds = remove fd q.fds };
}

abbrev or_zero : Option ℕ → ℕ
or_zero none = 0
or_zero (some fd) = fd

pub socket-opened : (q q' : Quay) (fd : ℕ) → new_descriptor q ≡ (some fd, q') → q'.fds ≡ fd ∷ q.fds
socket-opened q q' fd e = sym (ap (λ r. r.1.fds) e) ∙ ap (λ r. or_zero r.0 ∷ q.fds) e

pub socket-failed : (q q' : Quay) → new_descriptor q ≡ (none, q') → q'.fds ≡ q.fds
socket-failed q q' e = cc (ap (λ r. r.0) e)

abbrev pub harbour-IsSockets : IsSockets harbour
harbour-IsSockets = record {
  opened = λ q. q.fds;
  socket-opened = socket-opened;
  socket-failed = socket-failed;
  bind-opened = λ q fd. refl;
  bind_port-opened = λ q fd port. refl;
  reuse_address-opened = λ q fd. refl;
  listen-opened = λ q fd n. refl;
  connect-opened = λ q fd a port. refl;
  accept-opened = λ s s' fd d e. socket-opened s s' d e;
  accept-failed = λ s s' fd e. socket-failed s s' e;
  shutdown-opened = λ q fd. refl;
  close-opened = λ q fd. refl;
}

abbrev pub calm : Quay
calm = record { counter = 5; fds = []; refusals = 0 }
