-- ===== src/Device/Relay/Deletion.antt =====
-- A deletion from the device that tells of it to the other devices and the backups.
use so2_final.Base.{
  ℕ, suc, Bool, false, ◌≡◌, refl, sym, ap, subst, ◌∙◌, ◌⊎◌, true, none, some, List, [], ◌∷◌, ◌++◌,
  length, drop, drop_all, map, M, ok, All, >>=-ok, append-nil, arith,
}
use so2_final.Network.Packet.{Packet, number, make_packet, delete}
use so2_final.Network.Channel.{Channel, IsChannel, IsSendable}
use so2_final.Files.System.{FileSystem, FilePath, IsFileSystem, IsWilling}
use so2_final.Files.Manager.{path}
use so2_final.Transfer.{Host, on_conn}
use so2_final.Transfer.Steps.{on_conn-ok, on_files-ok}
use so2_final.Device.Text.{until_zero}
use so2_final.Device.Watcher.{client_files, delete_watched, watch_packet}
use so2_final.Device.Watcher.Deleting.{watch_packet-round, delete_watched-deletes}
use so2_final.Device.Relay.{
  Station, on_watched, on_herd, settled, undefined, listened, pass_on, destroy, destroy_both,
  relay_round, file_watcher_thread,
}
use so2_final.ClientManager.Push.{IsFree, passed}
use so2_final.ClientManager.Spread.{Herd, handle_new_push}
use so2_final.ClientManager.Spread.Reach.{Open}
use so2_final.ClientManager.Spread.Notices.{AllGotNotice, handle_new_push-notices}

module _ (C : Channel) (ch : IsChannel C) where
  length-AllGotNotice :
      (name : List ℕ) (qss : List (List Packet)) (ds : List C.Conn)
      → AllGotNotice C ch name qss ds
      → length ds ≡ length qss
  length-AllGotNotice name [] [] h = refl
  length-AllGotNotice name [] (d ∷ ds) h = absurd h
  length-AllGotNotice name (q ∷ qss) [] h = absurd h
  length-AllGotNotice name (q ∷ qss) (d ∷ ds) h = ap suc (length-AllGotNotice name qss ds h.1)

  length-Open :
      (cs : List C.Conn) (qss : List (List Packet)) → Open C ch cs qss → length cs ≡ length qss
  length-Open [] [] h = refl
  length-Open [] (q ∷ qss) h = absurd h
  length-Open (c ∷ cs) [] h = absurd h
  length-Open (c ∷ cs) (q ∷ qss) h = ap suc (length-Open cs qss h.1)

  -- When all backups have been told, no old state of a connection is left.
  told-all :
      (name : List ℕ) (qss : List (List Packet)) (cs ds : List C.Conn)
      → Open C ch cs qss
      → AllGotNotice C ch name qss ds
      → ds ++ drop (length ds) cs ≡ ds
  told-all name qss cs ds o g =
      let few =
        drop_all (length ds) cs
          (omega (arith, length-Open cs qss o, length-AllGotNotice name qss ds g)) in
      ap (◌++◌ ds) few ∙ append-nil ds

  module _ (F : FileSystem) (username : List ℕ) where
    on_watched-ok {ℓ} :
        {A : Type ℓ} (call : M (Host C F) A) (s : Station C F) {a : A} {h : Host C F}
        → call (record { conn = s.conn; files = s.herd.files }) ≡ ok a h
        → on_watched C F username call s
          ≡ ok a (record { conn = h.conn; herd = record (s.herd) { files = h.files } })
    on_watched-ok call s e = rw (e, on_watched)

    on_herd-ok {ℓ} :
        {A : Type ℓ} (call : M (Herd C F) A) (s : Station C F) {a : A} {g : Herd C F}
        → call s.herd ≡ ok a g
        → on_herd C F username call s ≡ ok a (record s { herd = settled g })
    on_herd-ok call s e = rw (e, on_herd)

    -- When the changes have been passed on, the payload is freed twice.
    heard-undefined :
        (caller n : ℕ) (p : Packet) (s s' : Station C F) {t : Station C F}
        → listened C F username n s ≡ ok (p, true) s'
        → on_herd C F username (handle_new_push C F (client_files username) p caller) s' ≡ ok tt t
        → relay_round C F username caller n s ≡ undefined t
    unfolding relay_round pass_on destroy_both destroy
    heard-undefined caller n p s s' heard passed_on =
        rw (heard, relay_round) (rw (passed_on, pass_on) refl)

    -- The thread does not come behind a round whose behaviour is undefined.
    pub file_watcher_thread-undefined :
        (caller n : ℕ) (stops : List Bool) (s : Station C F) {t : Station C F}
        → relay_round C F username caller n s ≡ undefined t
        → file_watcher_thread C F username caller (false ∷ stops) n s ≡ undefined t
    unfolding file_watcher_thread
    file_watcher_thread-undefined caller n stops s e = rw (e, file_watcher_thread)

    module _ (L : IsFileSystem F) (W : IsWilling F) where
      -- The round for a deletion of a file that is there: the file is gone, all are told, and the
      -- payload is freed twice.
      pub relay_round-deletes :
          (caller n : ℕ) (name old : List ℕ) (s : Station C F) (ps qs : List Packet)
          (qss : List (List Packet))
          → IsSendable name
          → until_zero name ≡ name
          → F.read s.herd.files (path (client_files username) name) ≡ some old
          → All (λ d. (d.address ≡ caller) ⊎ IsFree d) s.herd.devices
          → Open C ch s.herd.backups qss
          → s.herd.told ≡ []
          → ch.Inbox s.conn (make_packet (number delete) 1 name ∷ ps)
          → ch.Outbox s.conn qs
          → (t : Station C F) × (relay_round C F username caller n s ≡ undefined t)
            × ch.Inbox t.conn ps
            × ch.Outbox t.conn qs
            × (F.read t.herd.files (path (client_files username) name) ≡ none)
            × ((q : FilePath)
                → L.same (path (client_files username) name) q ≡ false
                → F.read t.herd.files q ≡ F.read s.herd.files q)
            × (t.herd.devices ≡ map (passed caller (number delete) name) s.herd.devices)
            × AllGotNotice C ch name qss t.herd.backups
      unfolding relay_round listened pass_on destroy_both destroy make_packet
      relay_round-deletes caller n name old s ps qs qss fits whole there free open_ fresh i o =
          let p = make_packet (number delete) 1 name in
          let h : Host C F = record { conn = s.conn; files = s.herd.files } in
          let (c, r, i', o') = ch.receive-next s.conn p ps qs i o in
          let (g, e, gone, others) =
            delete_watched-deletes C ch F L W username name old s.herd.files there in
          let watched =
            watch_packet-round C ch F L W username n name (record h { conn = c }) whole
            ∙ on_files-ok C F (delete_watched F username name) (record h { conn = c }) e in
          let herd : Herd C F = record (s.herd) { files = g } in
          let (ds, spread, got) =
            handle_new_push-notices C ch F (client_files username) name fits p name caller herd qss
              refl refl whole free open_ fresh in
          (
            _,
            heard-undefined caller n p s (record { conn = c; herd = herd })
                (>>=-ok (on_watched C F username (on_conn C F C.receive)) _ s
                    (on_watched-ok (on_conn C F C.receive) s (on_conn-ok C F C.receive h r))
                  ∙ >>=-ok (on_watched C F username (watch_packet F username C n p)) _
                      (record s { conn = c })
                      (on_watched-ok (watch_packet F username C n p) (record s { conn = c })
                        watched))
                (on_herd-ok (handle_new_push C F (client_files username) p caller)
                  (record { conn = c; herd = herd }) spread),
            i',
            o',
            gone,
            others,
            refl,
            subst (AllGotNotice C ch name qss) (sym (told-all name qss s.herd.backups ds open_ got))
                got,
          )
