-- ===== src/ClientManager/Spread/Reach.antt =====
-- Whom a written file reaches.
use so2_final.Base.{
  ℕ, ◌^◌, ◌<◌, ◌≡◌, refl, ap, ◌∙◌, ◌⊎◌, some, List, [], ◌∷◌, ◌++◌, map, ok, All, >>=-ok,
  if◌then◌else◌, ◌==◌, append_assoc, append-nil,
}
use so2_final.Network.Packet.{Packet, number, write}
use so2_final.Network.Channel.{Channel, IsChannel, IsSendable}
use so2_final.Files.System.{FileSystem}
use so2_final.Files.Manager.{FileManager, path}
use so2_final.Transfer.Sending.{IsChunking, contents, end_packet}
use so2_final.Device.Text.{c_string, until_zero}
use so2_final.ClientManager.{Member, push_to_devices}
use so2_final.ClientManager.Push.{IsFree, notified, push_to_devices-notifies}
use so2_final.ClientManager.Spread.{Herd, tell_backup, tell_backups, tell_devices, handle_new_push}
use so2_final.ClientManager.Spread.Replica.{write_notice, push_to_backup-sends}

module _ (C : Channel) (ch : IsChannel C) where
  -- The connections are open and have sent these packets.
  abbrev pub Open : List C.Conn → List (List Packet) → Type 0
  Open [] [] = Unit {0}
  Open [] (q ∷ qs) = ⊥
  Open (c ∷ cs) [] = ⊥
  Open (c ∷ cs) (q ∷ qs) = ((ps : List Packet) × ch.Inbox c ps × ch.Outbox c q) × Open cs qs

  pub tell_devices-ok :
      (F : FileSystem) (f : FileManager) (caller kind : ℕ) (content : List ℕ) (s : Herd C F)
      (ds : List Member)
      → push_to_devices caller kind content s.devices ≡ some ds
      → tell_devices C F f caller kind content s ≡ ok tt (record s { devices = ds })
  unfolding tell_devices
  tell_devices-ok F f caller kind content s ds e = rw (e, tell_devices)

  -- A connection on which a file of this name and these bytes has been sent behind the packets.
  abbrev pub GotFile : List ℕ → List ℕ → List Packet → C.Conn → Type 0
  GotFile name bytes q c =
      (last : ℕ) × (sent : List Packet) × (last < 2 ^ 16)
      × IsChunking 0 sent
      × (contents sent ≡ bytes)
      × ch.Outbox c (q ++ (write_notice name ∷ (sent ++ (end_packet last ∷ []))))

  abbrev pub AllGotFile : List ℕ → List ℕ → List (List Packet) → List C.Conn → Type 0
  AllGotFile name bytes [] [] = Unit {0}
  AllGotFile name bytes [] (c ∷ cs) = ⊥
  AllGotFile name bytes (q ∷ qs) [] = ⊥
  AllGotFile name bytes (q ∷ qs) (c ∷ cs) = GotFile name bytes q c × AllGotFile name bytes qs cs

  module _ (F : FileSystem) (f : FileManager) (name bytes : List ℕ) (fits : IsSendable name) where
    tell_backup-tells :
        (c : C.Conn) (s : Herd C F) (ps q : List Packet)
        → F.read s.files (path f name) ≡ some bytes
        → ch.Inbox c ps
        → ch.Outbox c q
        → (d : C.Conn) × (tell_backup C F f (number write) name c s
            ≡ ok tt (record s { told = s.told ++ (d ∷ []) }))
          × GotFile name bytes q d
    unfolding tell_backup
    tell_backup-tells c s ps q found i o =
        let (last, sent, d, e, hl, chunked, whole, i', o') =
          push_to_backup-sends C ch F f name bytes (record { conn = c; files = s.files }) ps q fits
            found i o in
        (d, rw (e, tell_backup), (last, sent, hl, chunked, whole, o'))

    tell_backups-tells :
        (cs : List C.Conn) (s : Herd C F) (qss : List (List Packet))
        → F.read s.files (path f name) ≡ some bytes
        → Open cs qss
        → (ds : List C.Conn) × (tell_backups C F f (number write) name cs s
            ≡ ok tt (record s { told = s.told ++ ds }))
          × AllGotFile name bytes qss ds
    unfolding tell_backups
    tell_backups-tells [] s [] found open_ = ([], rw append-nil refl, tt)
    tell_backups-tells [] s (q ∷ qss) found open_ = absurd open_
    tell_backups-tells (c ∷ cs) s [] found open_ = absurd open_
    tell_backups-tells (c ∷ cs) s (q ∷ qss) found open_ =
        let (ps, i, o) = open_.0 in
        let (d, e, got) = tell_backup-tells c s ps q found i o in
        let (ds, e', all_got) =
          tell_backups-tells cs (record s { told = s.told ++ (d ∷ []) }) qss found open_.1 in
        (
          d ∷ ds,
          >>=-ok (tell_backup C F f (number write) name c)
                (λ _. tell_backups C F f (number write) name cs) s e
              ∙ e'
              ∙ ap (λ t. ok tt (record s { told = t })) (append_assoc s.told (d ∷ []) ds),
          (got, all_got),
        )

    -- If the packet tells of a write and its payload, up to a zero byte, is the name of a file
    -- that can be read, of 1 to 2048 bytes, every device but the caller can take a command at
    -- once, and the backups' connections are open, then `handle_new_push` returns with the files
    -- as they were, puts the command in the mailbox of every device but the caller, leaves the
    -- caller and the order as they are, and sends to every backup the name, data packets numbered
    -- from 0 on that hold the file's bytes in order, and the closing packet.
    pub handle_new_push-spreads :
        (p : Packet) (text : List ℕ) (caller : ℕ) (s : Herd C F) (qss : List (List Packet))
        → p.kind ≡ number write
        → p.payload ≡ some text
        → until_zero text ≡ name
        → F.read s.files (path f name) ≡ some bytes
        → All (λ d. (d.address ≡ caller) ⊎ IsFree d) s.devices
        → Open s.backups qss
        → s.told ≡ []
        → (ds : List C.Conn) × (handle_new_push C F f p caller s
            ≡ ok tt (record s {
              devices =
                  map
                    (λ d. if d.address == caller then d else notified (number write) name d)
                    s.devices;
              told = ds;
            }))
          × AllGotFile name bytes qss ds
    unfolding handle_new_push c_string
    handle_new_push-spreads p text caller s qss k e whole found free open_ fresh =
        let told =
          map (λ d. if d.address == caller then d else notified (number write) name d) s.devices in
        let (ds, e', all_got) =
          tell_backups-tells s.backups (record s { devices = told }) qss found open_ in
        let first =
          tell_devices-ok F f caller (number write) name s told
            (push_to_devices-notifies caller (number write) name s.devices free) in
        (
          ds,
          rw (e, k)
                (rw whole (
                  >>=-ok (tell_devices C F f caller (number write) name)
                    (λ _ s'. tell_backups C F f (number write) name s'.backups s') s first))
              ∙ e'
              ∙ ap (λ t. ok tt (record s { devices = told; told = t ++ ds })) fresh,
          all_got,
        )
