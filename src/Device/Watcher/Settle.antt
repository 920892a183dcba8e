-- ===== src/Device/Watcher/Settle.antt =====
-- What becomes of an original and its copy once the copy is complete.
use so2_final.Base.{
  ℕ, ◌≡◌, ◌∙◌, ◌≢◌, true, false, none, some, List, ok, return, >>=-ok, ◌==◌, if◌then◌else◌, arith,
}
use so2_final.Files.System.{FileSystem, FilePath, IsFileSystem, IsWilling}
use so2_final.Files.Hash.{fnv1a}
use so2_final.Files.Manager.{path, delete_file, rename_file, check_file_hash_changed, hash_file}
use so2_final.Files.Manager.Laws.{delete_file-deletes}
use so2_final.Device.Watcher.{
  client_files, copy_name, dot_path, settle, replace_original, drop_copy,
}

module _ (F : FileSystem) (L : IsFileSystem F) (W : IsWilling F) (username : List ℕ) where
  abbrev original : List ℕ → FilePath
  original name = path (client_files username) name

  abbrev copy : List ℕ → FilePath
  copy name = path (client_files username) (copy_name name)

  -- Hashing and renaming go by another path to the same file.
  pub same-dot_path :
      (name : List ℕ) → L.same (dot_path username name) (path (client_files username) name) ≡ true
  same-dot_path name = L.same_dot b's' _ (omega arith)

  dot_path-same :
      (name : List ℕ) (q : FilePath)
      → L.same (dot_path username name) q ≡ L.same (path (client_files username) name) q
  dot_path-same name q =
      L.same_trans (dot_path username name) (path (client_files username) name) q
        (same-dot_path name)

  hash_file-path :
      (name bytes : List ℕ) (s : F.State)
      → F.read s (path (client_files username) name) ≡ some bytes
      → hash_file F (dot_path username name) s ≡ ok (fnv1a bytes) s
  unfolding hash_file
  hash_file-path name bytes s h =
      let found : F.read s (dot_path username name) ≡ some bytes =
        L.read-same s (dot_path username name) (path (client_files username) name)
          (same-dot_path name)
        ∙ h in
      rw (found, hash_file)

  check-hashes :
      (name old new : List ℕ) (s : F.State)
      → F.read s (original name) ≡ some old
      → F.read s (copy name) ≡ some new
      → check_file_hash_changed F (dot_path username name) (dot_path username (copy_name name)) s
        ≡ ok (if fnv1a old == fnv1a new then false else true) s
  unfolding check_file_hash_changed
  check-hashes name old new s h k =
      >>=-ok (hash_file F (dot_path username name)) _ s (hash_file-path name old s h)
      ∙ >>=-ok (hash_file F (dot_path username (copy_name name))) _ s
          (hash_file-path (copy_name name) new s k)

  replace_original-replaces :
      (name new : List ℕ) (s : F.State)
      → L.same (original name) (copy name) ≡ false
      → F.read s (copy name) ≡ some new
      → (s' : F.State) × (replace_original F username name s ≡ ok true s')
        × (F.read s' (original name) ≡ some new)
        × (F.read s' (copy name) ≡ none)
        × ((q : FilePath)
            → L.same (original name) q ≡ false
            → L.same (copy name) q ≡ false
            → F.read s' q ≡ F.read s q)
  unfolding replace_original
  replace_original-replaces name new s apart k =
      let (t, e, gone, kept) = delete_file-deletes F L W (client_files username) name s in
      let from = dot_path username (copy_name name) in
      let to = dot_path username name in
      let source : F.read t from ≡ some new =
        L.read-same t from (copy name) (same-dot_path (copy_name name))
        ∙ kept (copy name) apart
        ∙ k in
      let (u, r) = W.renames t from to new source in
      let moved = λ (q : FilePath). L.read-rename t u from to q r (
        dot_path-same (copy_name name) to
        ∙ L.same_sym (copy name) to
        ∙ dot_path-same name (copy name)
        ∙ apart) in
      let renamed : rename_file F from to t ≡ ok tt u = unfold rename_file in rw r in
      (
        u,
        >>=-ok (delete_file F (client_files username) name) _ s e
            ∙ >>=-ok (rename_file F from to) (λ _. return true) t renamed,
        moved (original name)
            ∙ rw (dot_path-same name (original name), L.same_refl (original name)) source,
        moved (copy name)
            ∙ rw (dot_path-same name (copy name), apart)
                (rw (dot_path-same (copy_name name) (copy name), L.same_refl (copy name))),
        λ q a b.
            moved q
            ∙ rw (dot_path-same name q, a) (rw (dot_path-same (copy_name name) q, b) (kept q a)),
      )

  drop_copy-drops :
      (name : List ℕ) (s : F.State)
      → (s' : F.State) × (drop_copy F username name s ≡ ok false s')
        × (F.read s' (copy name) ≡ none)
        × ((q : FilePath) → L.same (copy name) q ≡ false → F.read s' q ≡ F.read s q)
  unfolding drop_copy
  drop_copy-drops name s =
      let (t, e, gone, kept) =
        delete_file-deletes F L W (client_files username) (copy_name name) s in
      (
        t,
        >>=-ok (delete_file F (client_files username) (copy_name name)) (λ _. return false) s e,
        gone,
        kept,
      )

  -- On a lawful and willing file system, if the original and its copy are different files, both
  -- are there and their hashes differ, then the original gets the copy's bytes, the copy is gone,
  -- no other file changes, and the change is to be passed on.
  pub settle_changed :
      (name old new : List ℕ) (s : F.State)
      → L.same (path (client_files username) name) (path (client_files username) (copy_name name))
        ≡ false
      → F.read s (path (client_files username) name) ≡ some old
      → F.read s (path (client_files username) (copy_name name)) ≡ some new
      → fnv1a old ≢ fnv1a new
      → (s' : F.State) × (settle F username name s ≡ ok true s')
        × (F.read s' (path (client_files username) name) ≡ some new)
        × (F.read s' (path (client_files username) (copy_name name)) ≡ none)
        × ((q : FilePath)
            → L.same (path (client_files username) name) q ≡ false
            → L.same (path (client_files username) (copy_name name)) q ≡ false
            → F.read s' q ≡ F.read s q)
  unfolding settle
  settle_changed name old new s apart h k differ =
      let (t, e, now, gone, kept) = replace_original-replaces name new s apart k in
      let test : (fnv1a old == fnv1a new) ≡ false = ground arith in
      (
        t,
        >>=-ok
              (check_file_hash_changed F (dot_path username name)
                (dot_path username (copy_name name)))
              _ s (check-hashes name old new s h k)
            ∙ rw test e,
        now,
        gone,
        kept,
      )

  -- On a lawful and willing file system, if the copy and the original are different files, both
  -- are there and their hashes agree, then the copy is gone, every other file, the original among
  -- them, is as it was, and nothing is to be passed on.
  pub settle_unchanged :
      (name old new : List ℕ) (s : F.State)
      → L.same (path (client_files username) (copy_name name)) (path (client_files username) name)
        ≡ false
      → F.read s (path (client_files username) name) ≡ some old
      → F.read s (path (client_files username) (copy_name name)) ≡ some new
      → fnv1a old ≡ fnv1a new
      → (s' : F.State) × (settle F username name s ≡ ok false s')
        × (F.read s' (path (client_files username) name) ≡ some old)
        × (F.read s' (path (client_files username) (copy_name name)) ≡ none)
        × ((q : FilePath)
            → L.same (path (client_files username) (copy_name name)) q ≡ false
            → F.read s' q ≡ F.read s q)
  unfolding settle
  settle_unchanged name old new s apart h k agree =
      let (t, e, gone, kept) = drop_copy-drops name s in
      let test : (fnv1a old == fnv1a new) ≡ true = ground arith in
      (
        t,
        >>=-ok
              (check_file_hash_changed F (dot_path username name)
                (dot_path username (copy_name name)))
              _ s (check-hashes name old new s h k)
            ∙ rw test e,
        kept (original name) apart ∙ h,
        gone,
        kept,
      )
