-- ===== src/ClientManager/Spread/Notices.antt =====
-- Whom a deleted file reaches.
use so2_final.Base.{
  ℕ, ◌≡◌, refl, ap, ◌∙◌, ◌⊎◌, some, List, [], ◌∷◌, ◌++◌, map, ok, All, >>=-ok, append_assoc,
  append-nil, return, arith,
}
use so2_final.Network.Packet.{Packet, number, make_packet, delete}
use so2_final.Network.Channel.{Channel, IsChannel, IsSendable}
use so2_final.Files.System.{FileSystem}
use so2_final.Files.Manager.{FileManager}
use so2_final.Transfer.{Host, on_conn}
use so2_final.Transfer.Steps.{on_conn-ok}
use so2_final.Device.Text.{c_string, until_zero}
use so2_final.ClientManager.{push_to_backup}
use so2_final.ClientManager.Push.{IsFree, passed, push_to_devices-notifies}
use so2_final.ClientManager.Spread.{Herd, tell_backup, tell_backups, tell_devices, handle_new_push}
use so2_final.ClientManager.Spread.Reach.{Open, tell_devices-ok}

-- What tells a backup of a deletion.
abbrev pub delete_notice : List ℕ → Packet
delete_notice name = make_packet (number delete) 0 name

module _ (C : Channel) (ch : IsChannel C) where
  -- The connections have sent the notice behind these packets, and nothing else.
  abbrev pub AllGotNotice : List ℕ → List (List Packet) → List C.Conn → Type 0
  AllGotNotice name [] [] = Unit {0}
  AllGotNotice name [] (c ∷ cs) = ⊥
  AllGotNotice name (q ∷ qs) [] = ⊥
  AllGotNotice name (q ∷ qs) (c ∷ cs) =
      ch.Outbox c (q ++ (delete_notice name ∷ [])) × AllGotNotice name qs cs

  module _ (F : FileSystem) (f : FileManager) (name : List ℕ) (fits : IsSendable name) where
    tell_backup-notices :
        (c : C.Conn) (s : Herd C F) (ps q : List Packet)
        → ch.Inbox c ps
        → ch.Outbox c q
        → (d : C.Conn) × (tell_backup C F f (number delete) name c s
            ≡ ok tt (record s { told = s.told ++ (d ∷ []) }))
          × ch.Outbox d (q ++ (delete_notice name ∷ []))
    unfolding tell_backup push_to_backup
    tell_backup-notices c s ps q i o =
        let (d, e, i', o') =
          ch.send-sendable c (number delete) 0 name ps q (omega arith) (omega arith) fits i o in
        let h : Host C F = record { conn = c; files = s.files } in
        let sent : push_to_backup C F f (number delete) name h ≡ ok tt (record h { conn = d }) =
          >>=-ok (on_conn C F (C.send (number delete) 0 name)) (λ _. return tt) h
            (on_conn-ok C F (C.send (number delete) 0 name) h e) in
        (d, rw (sent, tell_backup), o')

    tell_backups-notices :
        (cs : List C.Conn) (s : Herd C F) (qss : List (List Packet))
        → Open C ch cs qss
        → (ds : List C.Conn) × (tell_backups C F f (number delete) name cs s
            ≡ ok tt (record s { told = s.told ++ ds }))
          × AllGotNotice name qss ds
    unfolding tell_backups
    tell_backups-notices [] s [] open_ = ([], rw append-nil refl, tt)
    tell_backups-notices [] s (q ∷ qss) open_ = absurd open_
    tell_backups-notices (c ∷ cs) s [] open_ = absurd open_
    tell_backups-notices (c ∷ cs) s (q ∷ qss) open_ =
        let (ps, i, o) = open_.0 in
        let (d, e, got) = tell_backup-notices c s ps q i o in
        let (ds, e', all_got) =
          tell_backups-notices cs (record s { told = s.told ++ (d ∷ []) }) qss open_.1 in
        (
          d ∷ ds,
          >>=-ok (tell_backup C F f (number delete) name c)
                (λ _. tell_backups C F f (number delete) name cs) s e
              ∙ e'
              ∙ ap (λ t. ok tt (record s { told = t })) (append_assoc s.told (d ∷ []) ds),
          (got, all_got),
        )

    -- If the packet tells of a deletion, every device but the caller can take a command at once,
    -- and the backups' connections are open, then `handle_new_push` puts the command in the
    -- mailbox of every device but the caller and sends every backup the notice.
    pub handle_new_push-notices :
        (p : Packet) (text : List ℕ) (caller : ℕ) (s : Herd C F) (qss : List (List Packet))
        → p.kind ≡ number delete
        → p.payload ≡ some text
        → until_zero text ≡ name
        → All (λ d. (d.address ≡ caller) ⊎ IsFree d) s.devices
        → Open C ch s.backups qss
        → s.told ≡ []
        → (ds : List C.Conn) × (handle_new_push C F f p caller s
            ≡ ok tt (record s {
              devices = map (passed caller (number delete) name) s.devices;
              told = ds;
            }))
          × AllGotNotice name qss ds
    unfolding handle_new_push c_string
    handle_new_push-notices p text caller s qss k e whole free open_ fresh =
        let told = map (passed caller (number delete) name) s.devices in
        let (ds, e', all_got) =
          tell_backups-notices s.backups (record s { devices = told }) qss open_ in
        let first =
          tell_devices-ok C ch F f caller (number delete) name s told
            (push_to_devices-notifies caller (number delete) name s.devices free) in
        (
          ds,
          rw (e, k)
                (rw whole (
                  >>=-ok (tell_devices C F f caller (number delete) name)
                    (λ _ s'. tell_backups C F f (number delete) name s'.backups s') s first))
              ∙ e'
              ∙ ap (λ t. ok tt (record s { devices = told; told = t ++ ds })) fresh,
          all_got,
        )
