-- ===== src/Network/Channel/Queue.antt =====
-- A channel that is two lists of packets, for runs of the handlers.
use so2_final.Base.{
  ℕ, ◌≡◌, refl, ap, List, [], ◌∷◌, ◌++◌, M, ok, err, closed_by_peer, invalid_packet, if◌then◌else◌,
  arith,
}
use so2_final.Network.Packet.{Packet, make_packet, is_packet_valid, make_packet-valid}
use so2_final.Network.Manager.Sending.{make_packet-invalid}
use so2_final.Network.Channel.{Channel, IsChannel, IsSendable, IsUnsendable, Closes}

pub record Queues : Type 0 where
  pub inbox : List Packet
  pub outbox : List Packet

unfoldable pub queue_send : ℕ → ℕ → List ℕ → M Queues (Unit {0})
queue_send kind seqn bytes q =
    let p = make_packet kind seqn bytes in
    if is_packet_valid p
    then ok tt (record q { outbox = q.outbox ++ (p ∷ []) })
    else err invalid_packet q

abbrev next_packet : List Packet → M Queues Packet
next_packet [] q = err closed_by_peer q
next_packet (p ∷ ps) q = ok p (record q { inbox = ps })

abbrev pub queue_channel : Channel
queue_channel = record { Conn = Queues; send = queue_send; receive = λ q. next_packet q.inbox q }

pub send-sendable :
    (q : Queues) (kind seqn : ℕ) (bytes : List ℕ)
    → IsSendable bytes
    → queue_send kind seqn bytes q
      ≡ ok tt (record q { outbox = q.outbox ++ (make_packet kind seqn bytes ∷ []) })
unfolding queue_send
send-sendable q kind seqn bytes fits =
    let valid = make_packet-valid kind seqn bytes (omega arith) (omega arith) in rw valid

pub queue_send-unsendable :
    (q : Queues) (kind seqn : ℕ) (bytes : List ℕ)
    → IsUnsendable bytes
    → queue_send kind seqn bytes q ≡ err invalid_packet q
unfolding queue_send
queue_send-unsendable q kind seqn bytes bad =
    let invalid = make_packet-invalid kind seqn bytes bad in rw invalid

abbrev pub queue_channel-IsChannel : IsChannel queue_channel
queue_channel-IsChannel = record {
  Inbox = λ q ps. q.inbox ≡ ps;
  Outbox = λ q qs. q.outbox ≡ qs;
  receive-next = λ q p ps qs i o. (record q { inbox = ps }, ap (λ l. next_packet l q) i, refl, o);
  send-sendable = λ q kind seqn bytes ps qs k s fits i o. (
    record q { outbox = q.outbox ++ (make_packet kind seqn bytes ∷ []) },
    send-sendable q kind seqn bytes fits,
    i,
    ap (λ l. l ++ (make_packet kind seqn bytes ∷ [])) o,
  );
  send-unsendable = λ q kind seqn bytes ps bad i. queue_send-unsendable q kind seqn bytes bad;
}

pub queue_channel-Closes : Closes queue_channel queue_channel-IsChannel
queue_channel-Closes q qs i o = (closed_by_peer, q, ap (λ l. next_packet l q) i, i, o)
