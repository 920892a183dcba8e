-- ===== src/Client/Pushes/Deletion.antt =====
-- A deletion from the mailbox of a device to the directory of its client.
pub mod Delivery
use so2_final.Base.{
  ℕ, Bool, ◌≡◌, refl, ◌∙◌, false, true, none, some, List, [], ◌∷◌, ◌++◌, ok, >>=-ok, arith,
}
use so2_final.Network.Packet.{Packet, number, make_packet, delete}
use so2_final.Network.Channel.{Channel, IsChannel, IsSendable, send_text}
use so2_final.Files.System.{FileSystem, FilePath, IsFileSystem, IsWilling}
use so2_final.Files.Manager.{FileManager, path, delete_file}
use so2_final.Files.Manager.Laws.{delete_file-deletes}
use so2_final.Transfer.{Host, on_conn}
use so2_final.Transfer.Steps.{on_conn-ok, on_files-ok}
use so2_final.Device.Text.{c_string, first_word, until_zero}
use so2_final.Device.Mailbox.{Mailbox, push_command_to, push_round}
use so2_final.Client.Shell.{sync_dir}
use so2_final.Client.Pushes.{take_change, client_push_round}

-- A mailbox with a command, and one from which it has been taken, while another thread told the
-- device to stop or not.
abbrev pub holding : ℕ → List ℕ → Mailbox → Mailbox
holding kind command m = record m {
  locked = true;
  send_push = true;
  push_type = kind;
  push_command = command;
}

abbrev pub emptied : Bool → Mailbox → Mailbox
emptied stops m = record m { send_push = false; locked = false; stop_requested = stops }

module _ (C : Channel) (ch : IsChannel C) (F : FileSystem) where
  -- The push thread sends the deletion that waits, and the lock is free again.
  pub push_round-deletes :
      (stops : Bool) (f : FileManager) (name : List ℕ) (m : Mailbox) (h : Host C F)
      (ps qs : List Packet)
      → m.stop_requested ≡ false
      → IsSendable name
      → ch.Inbox h.conn ps
      → ch.Outbox h.conn qs
      → (c : C.Conn) × (push_round C F f stops (holding (number delete) name m, h)
          ≡ some (emptied stops (holding (number delete) name m), record h { conn = c }))
        × ch.Inbox c ps
        × ch.Outbox c (qs ++ (make_packet (number delete) 1 name ∷ []))
  unfolding push_round push_command_to
  push_round-deletes stops f name m h ps qs go fits i o =
      let (c, s, i', o') =
        ch.send-sendable h.conn (number delete) 1 name ps qs (omega arith) (omega arith) fits i o in
      let sent : push_command_to C F f (number delete) name h ≡ ok tt (record h { conn = c }) =
        on_conn-ok C F (send_text C delete 1 name) h s in
      (c, rw go (rw sent refl), i', o')

  -- The client deletes the file that the first word names.
  pub client_push_round-deletes :
      (L : IsFileSystem F) (W : IsWilling F) (n : ℕ) (name : List ℕ) (h : Host C F)
      (ps qs : List Packet)
      → first_word (until_zero name) ≡ name
      → ch.Inbox h.conn (make_packet (number delete) 1 name ∷ ps)
      → ch.Outbox h.conn qs
      → (h' : Host C F) × (client_push_round C F n h ≡ ok tt h')
        × (F.read h'.files (path sync_dir name) ≡ none)
        × ((q : FilePath)
            → L.same (path sync_dir name) q ≡ false
            → F.read h'.files q ≡ F.read h.files q)
  unfolding client_push_round take_change c_string make_packet
  client_push_round-deletes L W n name h ps qs word i o =
      let p = make_packet (number delete) 1 name in
      let (c, r, i', o') = ch.receive-next h.conn p ps qs i o in
      let (s, e, gone, others) = delete_file-deletes F L W sync_dir name h.files in
      (
        record { conn = c; files = s },
        >>=-ok (on_conn C F C.receive) _ h (on_conn-ok C F C.receive h r)
            ∙ rw word (on_files-ok C F (delete_file F sync_dir name) (record h { conn = c }) e),
        gone,
        others,
      )
