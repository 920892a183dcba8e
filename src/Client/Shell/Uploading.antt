-- ===== src/Client/Shell/Uploading.antt =====
-- What `upload` of `Client::handleIoThread` does to the files.
use so2_final.Base.{
  ℕ, ◌≡◌, ◌≢◌, refl, ap, ◌∙◌, true, false, some, List, [], ◌∷◌, ◌++◌, codes, All, ◌==◌,
  if◌then◌else◌, arith, ok,
}
use so2_final.Network.Channel.{Channel}
use so2_final.Files.System.{FileSystem, FilePath, IsFileSystem}
use so2_final.Client.Commands.{upload, is_name, parse_command}
use so2_final.Client.Commands.RoundTrip.{parse_command_iff}
use so2_final.Client.Shell.{
  Copier, Shell, file_name, name_from, upload_file, run_command, io_thread,
}

-- What the library promises, where permissions and space allow it: a directory that is there is
-- left as it is, and a file is copied over any other file.
pub record IsCopier (F : FileSystem) (L : IsFileSystem F) (K : Copier F) : Type 0 where
  pub creates :
      (s : F.State) (p : FilePath)
      → F.is_directory s p ≡ some true
      → (s' : F.State) × (K.create_directories s p ≡ some s')
        × ((q : FilePath) → F.read s' q ≡ F.read s q)
  pub copies :
      (s : F.State) (p q : FilePath) (bytes : List ℕ)
      → F.read s p ≡ some bytes
      → L.same p q ≡ false
      → (s' : F.State) × (K.copy s p q ≡ some s')
        × ((r : FilePath) → F.read s' r ≡ (if L.same q r then some bytes else F.read s r))

-- A directory's name ends in a slash; the empty name is that of the current directory.
abbrev pub IsDirectoryName : List ℕ → Type 0
IsDirectoryName [] = Unit {0}
IsDirectoryName (b ∷ []) = b ≡ b'/'
IsDirectoryName (b ∷ (c ∷ cs)) = IsDirectoryName (c ∷ cs)

name_from-plain : (base name : List ℕ) → All (λ b. b ≢ b'/') base → name_from name base ≡ name
unfolding name_from
name_from-plain [] name plain = refl
name_from-plain (b ∷ bs) name (p, ps) =
    let inside : (b == b'/') ≡ false = ground (arith, p) in rw inside (name_from-plain bs name ps)

name_from-directory :
    (dir base name : List ℕ)
    → IsDirectoryName dir
    → dir ≢ []
    → name_from name (dir ++ base) ≡ name_from base base
unfolding name_from
name_from-directory [] base name d n = absurd (n refl)
name_from-directory (b ∷ []) base name d n = rw d refl
name_from-directory (b ∷ (c ∷ cs)) base name d n = name_from-directory (c ∷ cs) base _ d (λ e. cc)

-- The file's name is what stands behind its directory's.
file_name-base :
    (dir base : List ℕ)
    → IsDirectoryName dir
    → All (λ b. b ≢ b'/') base
    → file_name (dir ++ base) ≡ base
unfolding file_name
file_name-base [] base d plain = name_from-plain base base plain
file_name-base (b ∷ bs) base d plain =
    name_from-directory (b ∷ bs) base ((b ∷ bs) ++ base) d (λ e. cc)
    ∙ name_from-plain base base plain

module _ (C : Channel) (F : FileSystem) (L : IsFileSystem F) (K : Copier F)
    (law : IsCopier F L K) where
  upload_file-uploads :
      (dir base bytes : List ℕ) (s : Shell C F)
      → IsDirectoryName dir
      → All (λ b. b ≢ b'/') base
      → F.is_directory s.host.files (codes "sync_dir") ≡ some true
      → F.read s.host.files (dir ++ base) ≡ some bytes
      → L.same (dir ++ base) (codes "sync_dir/" ++ base) ≡ false
      → (f : F.State) × (upload_file C F K (dir ++ base) s
          ≡ ok tt (record s { host = record (s.host) { files = f } }))
        × ((r : FilePath)
            → F.read f r ≡ (
                if L.same (codes "sync_dir/" ++ base) r then some bytes else F.read s.host.files r))
  unfolding upload_file
  upload_file-uploads dir base bytes s d plain ready there apart =
      let (made, create, kept) = law.creates s.host.files (codes "sync_dir") ready in
      let (f, copy, result) =
        law.copies made (dir ++ base) (codes "sync_dir/" ++ base) bytes (kept (dir ++ base) ∙ there)
          apart in
      let target : codes "sync_dir/" ++ file_name (dir ++ base) ≡ codes "sync_dir/" ++ base =
        ap (λ n. codes "sync_dir/" ++ n) (file_name-base dir base d plain) in
      let copied : K.copy made (dir ++ base) (codes "sync_dir/" ++ file_name (dir ++ base))
          ≡ some f =
        ap (K.copy made (dir ++ base)) target ∙ copy in
      (
        f,
        rw (create, upload_file) (rw copied refl),
        λ r.
            result r
            ∙ ap (λ v. if L.same (codes "sync_dir/" ++ base) r then some bytes else v) (kept r),
      )

  -- If a name of the bytes that the expressions allow is that of a directory, which ends in a
  -- slash or is empty, followed by one without a slash, the file can be read, `sync_dir` is there,
  -- and the file is not the one of its last part in `sync_dir`, then on a lawful file system and
  -- copier the loop of `handleIoThread` over the line `upload` with this name comes to the next
  -- line, the file of the last part in `sync_dir` holds the same bytes, every other file is as it
  -- was, and nothing has been sent or printed.
  pub upload-copies :
      (fuel : ℕ) (dir base bytes : List ℕ) (lines : List (List ℕ)) (s : Shell C F)
      → is_name (dir ++ base) ≡ true
      → IsDirectoryName dir
      → All (λ b. b ≢ b'/') base
      → F.is_directory s.host.files (codes "sync_dir") ≡ some true
      → F.read s.host.files (dir ++ base) ≡ some bytes
      → L.same (dir ++ base) (codes "sync_dir/" ++ base) ≡ false
      → (f : F.State) × (io_thread C F K fuel ((codes "upload " ++ (dir ++ base)) ∷ lines) s
          ≡ io_thread C F K fuel lines (record s { host = record (s.host) { files = f } }))
        × (F.read f (codes "sync_dir/" ++ base) ≡ some bytes)
        × ((r : FilePath)
            → L.same (codes "sync_dir/" ++ base) r ≡ false
            → F.read f r ≡ F.read s.host.files r)
  unfolding io_thread run_command
  upload-copies fuel dir base bytes lines s named d plain ready there apart =
      let (f, uploaded, result) = upload_file-uploads dir base bytes s d plain ready there apart in
      let parsed : parse_command (codes "upload " ++ (dir ++ base)) ≡ upload (dir ++ base) =
        (parse_command_iff (codes "upload " ++ (dir ++ base)) (upload (dir ++ base)) named
            (λ e. cc)).1
          refl in
      (
        f,
        rw (parsed, io_thread) (rw (uploaded) refl),
        result (codes "sync_dir/" ++ base) ∙ rw (L.same_refl (codes "sync_dir/" ++ base)) refl,
        λ r other. result r ∙ rw other,
      )
