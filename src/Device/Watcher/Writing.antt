-- ===== src/Device/Watcher/Writing.antt =====
-- A file that a device has written, from the packet that names it to the end of the round.
use so2_final.Base.{
  ℕ, suc, ◌≡◌, refl, ◌∙◌, ◌≢◌, true, false, none, some, List, [], ◌∷◌, ◌++◌, Error, ok, err, >>=-ok,
  >>=-err, All,
}
use so2_final.Network.Packet.{Packet}
use so2_final.Network.Channel.{Channel, IsChannel, Closes}
use so2_final.Files.System.{FileSystem, FilePath, IsFileSystem, IsWilling}
use so2_final.Files.Hash.{fnv1a}
use so2_final.Files.Manager.{path, create_file, is_file_exists}
use so2_final.Files.Manager.Laws.{create_file-creates}
use so2_final.Transfer.{Host, on_files, build_file, says_end}
use so2_final.Transfer.Steps.{on_files-ok}
use so2_final.Transfer.Sending.{contents, end_packet}
use so2_final.Transfer.Receiving.{Receiving, more, build_file-runs_on, build_file-stops}
use so2_final.Device.Watcher.{
  client_files, copy_name, create_missing, receive_copy, write_watched, settle,
}
use so2_final.Device.Watcher.Settle.{settle_changed}

module _ (C : Channel) (ch : IsChannel C) (F : FileSystem) (L : IsFileSystem F) (W : IsWilling F)
    (username name : List ℕ)
    (apart : L.same
        (path (client_files username) (copy_name name))
        (path (client_files username) name)
      ≡ false) where
  abbrev original : FilePath
  original = path (client_files username) name

  abbrev copy : FilePath
  copy = path (client_files username) (copy_name name)

  -- An original that is there is left alone, and an empty copy is made.
  write_watched-prepares :
      (fuel : ℕ) (h : Host C F) (ps qs : List Packet) (old : List ℕ)
      → F.read h.files original ≡ some old
      → ch.Inbox h.conn ps
      → ch.Outbox h.conn qs
      → (s : F.State) × (write_watched F username C fuel name h
          ≡ receive_copy F username C fuel name (record h { files = s }))
        × Receiving C ch F L W
            (client_files username)
            (copy_name name)
            s
            (record h { files = s })
            ps
            qs
            []
        × (F.read s original ≡ some old)
        × ((q : FilePath) → L.same copy q ≡ false → F.read s q ≡ F.read h.files q)
  unfolding write_watched create_missing is_file_exists
  write_watched-prepares fuel h ps qs old present i o =
      let (s, e, empty, kept) =
        create_file-creates F L W (client_files username) (copy_name name) h.files in
      let there : create_missing F username name h.files ≡ ok tt h.files = rw present in
      (
        s,
        >>=-ok (on_files C F (create_missing F username name)) _ h
              (on_files-ok C F (create_missing F username name) h there)
            ∙ >>=-ok (on_files C F (create_file F (client_files username) (copy_name name))) _ h
                (on_files-ok C F (create_file F (client_files username) (copy_name name)) h e),
        record { inbox = i; outbox = o; file = empty; others = λ q d. refl },
        kept original apart ∙ present,
        kept,
      )

  -- If what is to be read for the changed file ends as `sendFileInChunks` ends it, no chunk and no
  -- later packet has the text "END_OF_FILE", the peer closes behind the last packet, the original
  -- is there and its copy is another file, then on a lawful and willing file system the round for
  -- `t_WRITE` ends by an exception; the original is as it was, and the copy holds the payloads of
  -- all the packets, the closing packet's text and the later packets included.
  pub write_watched_lost :
      (closes : Closes C ch) (n last : ℕ) (h : Host C F) (sent rest qs : List Packet) (old : List ℕ)
      → F.read h.files (path (client_files username) name) ≡ some old
      → All (λ p. says_end p ≡ false) sent
      → All (λ p. says_end p ≡ false) rest
      → ch.Inbox h.conn (sent ++ (end_packet last ∷ rest))
      → ch.Outbox h.conn qs
      → (e : Error) × (h' : Host C F) × (write_watched F username C
            (more (sent ++ (end_packet last ∷ rest)) (suc n))
            name
            h
          ≡ err e h')
        × (F.read h'.files (path (client_files username) name) ≡ some old)
        × (F.read h'.files (path (client_files username) (copy_name name))
            ≡ some (contents (sent ++ (end_packet last ∷ rest))))
  unfolding receive_copy
  write_watched_lost closes n last h sent rest qs old present a b i o =
      let all = sent ++ (end_packet last ∷ rest) in
      let fuel = more all (suc n) in
      let (s, e, r, now, kept) = write_watched-prepares fuel h all qs old present i o in
      let (x, h', e', r') =
        build_file-runs_on C ch F L W (client_files username) closes n last (copy_name name)
          (record h { files = s }) sent rest qs [] a b r in
      (
        x,
        h',
        e
            ∙ >>=-err (build_file C F (client_files username) fuel (copy_name name)) _
                (record h { files = s }) e',
        r'.others original apart ∙ now,
        r'.file,
      )

  -- If the device closes the file by a packet with the text "END_OF_FILE", which no chunk is, the
  -- original is there, it and its copy are different files, and the hash of what was sent differs
  -- from the original's, then on a lawful and willing file system the round for `t_WRITE` ends
  -- with what was sent as the original, no copy, every other file as it was, the change to be
  -- passed on, and the later packets still to be read.
  pub write_watched_changed :
      (n : ℕ) (h : Host C F) (sent rest qs : List Packet) (last : Packet) (old : List ℕ)
      → L.same (path (client_files username) name) (path (client_files username) (copy_name name))
        ≡ false
      → F.read h.files (path (client_files username) name) ≡ some old
      → All (λ p. says_end p ≡ false) sent
      → says_end last ≡ true
      → ch.Inbox h.conn (sent ++ (last ∷ rest))
      → ch.Outbox h.conn qs
      → fnv1a old ≢ fnv1a (contents sent)
      → (h' : Host C F) × (write_watched F username C (more sent (suc n)) name h ≡ ok true h')
        × ch.Inbox h'.conn rest
        × (F.read h'.files (path (client_files username) name) ≡ some (contents sent))
        × (F.read h'.files (path (client_files username) (copy_name name)) ≡ none)
        × ((q : FilePath)
            → L.same (path (client_files username) name) q ≡ false
            → L.same (path (client_files username) (copy_name name)) q ≡ false
            → F.read h'.files q ≡ F.read h.files q)
  unfolding receive_copy
  write_watched_changed n h sent rest qs last old apart' present a b i o differ =
      let (s, e, r, now, kept) =
        write_watched-prepares (more sent (suc n)) h (sent ++ (last ∷ rest)) qs old present i o in
      let (h', e', r') =
        build_file-stops C ch F L W (client_files username) n (copy_name name)
          (record h { files = s }) sent rest qs last [] a b r in
      let (t, e'', q, gone, others) =
        settle_changed F L W username name old (contents sent) h'.files apart'
          (r'.others original apart ∙ now) r'.file differ in
      (
        record h' { files = t },
        e
            ∙ >>=-ok (build_file C F (client_files username) (more sent (suc n)) (copy_name name)) _
                (record h { files = s }) e'
            ∙ on_files-ok C F (settle F username name) h' e'',
        r'.inbox,
        q,
        gone,
        λ p d d'. others p d d' ∙ r'.others p d' ∙ kept p d',
      )
