-- ===== src/Files/System.antt =====
-- The file system, which the operating system implements: a parameter, with what the code
-- relies on. A path is the list of its bytes.
use so2_final.Base.{
  ℕ, ◌≡◌, ◌≢◌, Bool, true, false, Option, none, some, List, [], ◌∷◌, ◌++◌, codes, if◌then◌else◌,
}

abbrev pub FilePath : Type 0
FilePath = List ℕ

-- `none` is a call that fails. `read` opens a file and reads it to its end, `truncate` opens it
-- for writing, which creates or empties it, and `append` opens it at its end and writes.
-- `is_directory` is `stat`.
pub record FileSystem : Type 1 where
  pub State : Type 0
  pub read : State → FilePath → Option (List ℕ)
  pub truncate : State → FilePath → Option State
  pub append : State → FilePath → List ℕ → Option State
  pub remove : State → FilePath → Option State
  pub rename : State → FilePath → FilePath → Option State
  pub is_directory : State → FilePath → Option Bool
  pub make_directory : State → FilePath → Option State

-- `same p q`: the two paths lead to one file. A relative path may start with "./".
pub record IsFileSystem (F : FileSystem) : Type 0 where
  pub same : FilePath → FilePath → Bool
  pub same_refl : (p : FilePath) → same p p ≡ true
  pub same_sym : (p q : FilePath) → same p q ≡ same q p
  pub same_trans : (p q r : FilePath) → same p q ≡ true → same p r ≡ same q r
  pub same_dot : (b : ℕ) (p : FilePath) → b ≢ b'/' → same (codes "./" ++ (b ∷ p)) (b ∷ p) ≡ true
  pub read-same : (s : F.State) (p q : FilePath) → same p q ≡ true → F.read s p ≡ F.read s q
  pub read-truncate :
      (s s' : F.State) (p q : FilePath)
      → F.truncate s p ≡ some s'
      → F.read s' q ≡ (if same p q then some [] else F.read s q)
  pub read-append :
      (s s' : F.State) (p q : FilePath) (bytes old : List ℕ)
      → F.append s p bytes ≡ some s'
      → F.read s p ≡ some old
      → F.read s' q ≡ (if same p q then some (old ++ bytes) else F.read s q)
  pub read-remove :
      (s s' : F.State) (p q : FilePath)
      → F.remove s p ≡ some s'
      → F.read s' q ≡ (if same p q then none else F.read s q)
  pub read-rename :
      (s s' : F.State) (p q r : FilePath)
      → F.rename s p q ≡ some s'
      → same p q ≡ false
      → F.read s' r ≡ (if same q r then F.read s p else if same p r then none else F.read s r)

-- Calls on files that can be read succeed, and new files can be made: the permissions allow it
-- and the disk is not full.
pub record IsWilling (F : FileSystem) : Type 0 where
  pub truncates : (s : F.State) (p : FilePath) → (s' : F.State) × (F.truncate s p ≡ some s')
  pub appends :
      (s : F.State) (p : FilePath) (bytes old : List ℕ)
      → F.read s p ≡ some old
      → (s' : F.State) × (F.append s p bytes ≡ some s')
  pub removes :
      (s : F.State) (p : FilePath) (old : List ℕ)
      → F.read s p ≡ some old
      → (s' : F.State) × (F.remove s p ≡ some s')
  pub renames :
      (s : F.State) (p q : FilePath) (old : List ℕ)
      → F.read s p ≡ some old
      → (s' : F.State) × (F.rename s p q ≡ some s')
