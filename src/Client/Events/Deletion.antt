-- ===== src/Client/Events/Deletion.antt =====
-- A deletion in the client's directory: what the client sends of it.
use so2_final.Base.{ℕ, ◌≡◌, true, false, List, [], ◌∷◌, ltb, ok, All, arith, ◌++◌}
use so2_final.Network.Packet.{Packet, number, make_packet, delete}
use so2_final.Network.Channel.{Channel, IsChannel, IsSendable, send_text}
use so2_final.Network.Channel.Socket.{Carries, make_packet-Carries}
use so2_final.Files.System.{FileSystem}
use so2_final.Transfer.{Host}
use so2_final.Transfer.Steps.{on_conn-ok}
use so2_final.Client.Events.{Event, in_close_write, in_delete, has, handle_event}

module _ (C : Channel) (ch : IsChannel C) (F : FileSystem) where
  pub handle_event-deletes :
      (e : Event) (h : Host C F) (ps qs : List Packet)
      → ltb 0 e.len ≡ true
      → has in_close_write e ≡ false
      → has in_delete e ≡ true
      → IsSendable e.name
      → ch.Inbox h.conn ps
      → ch.Outbox h.conn qs
      → (c : C.Conn) × (handle_event C F e h ≡ ok tt (record h { conn = c }))
        × ch.Inbox c ps
        × ch.Outbox c (qs ++ (make_packet (number delete) 1 e.name ∷ []))
  unfolding handle_event
  handle_event-deletes e h ps qs named kept gone fits i o =
      let (c, s, i', o') =
        ch.send-sendable h.conn (number delete) 1 e.name ps qs (omega arith) (omega arith) fits i
          o in
      (c, rw (named, kept) (rw gone (on_conn-ok C F (send_text C delete 1 e.name) h s)), i', o')

pub deletion-Carries :
    (name : List ℕ) → IsSendable name → All Carries (make_packet (number delete) 1 name ∷ [])
deletion-Carries name fits =
    (make_packet-Carries (number delete) 1 name (omega arith) (omega arith) fits, tt)
