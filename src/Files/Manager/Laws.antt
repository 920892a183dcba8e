-- ===== src/Files/Manager/Laws.antt =====
-- What the methods do to the files of a lawful and willing file system.
use so2_final.Base.{
  ℕ, ◌≡◌, refl, ◌∙◌, inl, inr, false, none, some, List, [], ◌++◌, ok, Option-cases,
}
use so2_final.Files.System.{FileSystem, FilePath, IsFileSystem, IsWilling}
use so2_final.Files.Manager.{FileManager, path, create_file, clear_file, write_file, delete_file}

module _ (F : FileSystem) (L : IsFileSystem F) (W : IsWilling F) (f : FileManager) where
  pub create_file-creates :
      (name : List ℕ) (s : F.State)
      → (s' : F.State) × (create_file F f name s ≡ ok tt s')
        × (F.read s' (path f name) ≡ some [])
        × ((q : FilePath) → L.same (path f name) q ≡ false → F.read s' q ≡ F.read s q)
  unfolding create_file
  create_file-creates name s =
      let (s', e) = W.truncates s (path f name) in
      (
        s',
        rw e,
        L.read-truncate s s' (path f name) (path f name) e ∙ rw (L.same_refl (path f name)),
        λ q d. L.read-truncate s s' (path f name) q e ∙ rw d,
      )

  -- On a lawful and willing file system, `clearFile` leaves the file there and empty, and no other
  -- file has changed.
  pub clear_file-clears :
      (name : List ℕ) (s : F.State)
      → (s' : F.State) × (clear_file F f name s ≡ ok tt s')
        × (F.read s' (path f name) ≡ some [])
        × ((q : FilePath) → L.same (path f name) q ≡ false → F.read s' q ≡ F.read s q)
  unfolding clear_file
  clear_file-clears name s =
      let (s', e) = W.truncates s (path f name) in
      (
        s',
        rw (e, clear_file),
        L.read-truncate s s' (path f name) (path f name) e ∙ rw (L.same_refl (path f name)),
        λ q d. L.read-truncate s s' (path f name) q e ∙ rw d,
      )

  pub write_file-appends :
      (name bytes old : List ℕ) (s : F.State)
      → F.read s (path f name) ≡ some old
      → (s' : F.State) × (write_file F f name bytes s ≡ ok tt s')
        × (F.read s' (path f name) ≡ some (old ++ bytes))
        × ((q : FilePath) → L.same (path f name) q ≡ false → F.read s' q ≡ F.read s q)
  unfolding write_file
  write_file-appends name bytes old s h =
      let (s', e) = W.appends s (path f name) bytes old h in
      (
        s',
        rw e,
        L.read-append s s' (path f name) (path f name) bytes old e h
            ∙ rw (L.same_refl (path f name)),
        λ q d. L.read-append s s' (path f name) q bytes old e h ∙ rw d,
      )

  -- On a lawful and willing file system, `deleteFile` returns whether or not the file is there;
  -- afterwards it is not, and no other file has changed.
  pub delete_file-deletes :
      (name : List ℕ) (s : F.State)
      → (s' : F.State) × (delete_file F f name s ≡ ok tt s')
        × (F.read s' (path f name) ≡ none)
        × ((q : FilePath) → L.same (path f name) q ≡ false → F.read s' q ≡ F.read s q)
  unfolding delete_file
  delete_file-deletes name s = elim (Option-cases (F.read s (path f name))) [
    | inl absent ↦ (s, rw absent, absent, λ q d. refl)
    | inr (old, present) ↦
        let (s', e) = W.removes s (path f name) old present in
        let gone : F.read s' (path f name) ≡ none =
          L.read-remove s s' (path f name) (path f name) e ∙ rw (L.same_refl (path f name)) in
        (s', rw (present, e), gone, λ q d. L.read-remove s s' (path f name) q e ∙ rw d)
  ]
