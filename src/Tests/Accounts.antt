-- ===== src/Tests/Accounts.antt =====
-- The descriptors of a device, at a concrete input.
use so2_final.Base.{
  Silence, ℕ, ◌≡◌, ◌≢◌, refl, ap, sym, Bool-cases, inl, inr, none, some, List, [], ◌∷◌, hang, arith,
}
use so2_final.Network.Packet.{PacketType, number, make_packet, is_packet_valid}
use so2_final.Network.Channel.{send_text}
use so2_final.Network.Channel.Queue.{Queues, queue_channel, queue_send}
use so2_final.Network.Sockets.{Sockets, IsSockets}
use so2_final.ClientManager.Connection.{Door, handle_new_connection}
use so2_final.ClientManager.Connection.Accounts.{Accounts, handle_new_connection-Accounts}
use so2_final.Tests.Harbour.{Quay, harbour, socket-opened, socket-failed}

-- The client does not connect to the sockets that its device listens on.
abbrev silent : Sockets
silent = record harbour { accept = λ q fd. (none, q) }

accept-opened : (q q' : Quay) (fd d : ℕ) → silent.accept q fd ≡ (some d, q') → q'.fds ≡ d ∷ q.fds
accept-opened q q' fd d e = cc

abbrev silent-IsSockets : IsSockets silent
silent-IsSockets = record {
  opened = λ q. q.fds;
  socket-opened = socket-opened;
  socket-failed = socket-failed;
  bind-opened = λ q fd. refl;
  bind_port-opened = λ q fd port. refl;
  reuse_address-opened = λ q fd. refl;
  listen-opened = λ q fd n. refl;
  connect-opened = λ q fd a port. refl;
  accept-opened = accept-opened;
  accept-failed = λ q q' fd e. ap (λ r. r.1.fds) (sym e);
  shutdown-opened = λ q fd. refl;
  close-opened = λ q fd. refl;
}

abbrev doorstep : Door queue_channel silent
doorstep = record {
  arrival = record {
    conn = record { inbox = []; outbox = [] };
    sockets = record { counter = 5; fds = 4 ∷ 3 ∷ []; refusals = 0 };
    push = none;
    watcher = none;
  };
  devices = 1 ∷ [];
  socket = 4;
}

sends :
    (t : PacketType) (n : ℕ) (text : List ℕ) (c : Queues) (w : Silence)
    → send_text queue_channel t n text c ≢ hang w
unfolding queue_send
sends t n text c w = elim (Bool-cases (is_packet_valid (make_packet (number t) n text))) [
  | inl valid ↦ rw valid (λ e. cc)
  | inr invalid ↦ rw invalid (λ e. cc)
]

handle_new_connection-Accounts_example :
    Accounts queue_channel silent silent-IsSockets 2 doorstep
      (handle_new_connection queue_channel silent 2 doorstep)
handle_new_connection-Accounts_example =
    handle_new_connection-Accounts queue_channel silent silent-IsSockets sends 2 doorstep refl refl
      (omega arith)
