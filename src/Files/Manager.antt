-- ===== src/Files/Manager.antt =====
-- The methods of `FileManager`. A manager is the path of its base directory.
pub mod Laws
pub mod Uncalled
use so2_final.Base.{
  ℕ, ◌≡◌, Bool, true, false, not, Option, none, some, List, ◌++◌, codes, if◌then◌else◌, ◌==◌, M,
  Result, Error, ok, err, ◌>>=◌, ◌>>◌, return, throw, create_failed, open_failed, remove_failed,
  rename_failed, hash_failed,
}
use so2_final.Files.System.{FileSystem, FilePath}
use so2_final.Files.Hash.{fnv1a}

pub record FileManager : Type 0 where
  pub base_directory : FilePath

-- `base_directory + "/" + file_name`
abbrev pub path : FileManager → List ℕ → FilePath
path f name = f.base_directory ++ (codes "/" ++ name)

-- The call's result, or the exception.
abbrev pub expect {ℓ κ} : {S : Type ℓ} {A : Type κ} → Error → Option A → M S A
expect e none = throw e
expect e (some a) = return a

-- The new state, or the exception.
abbrev pub advance {ℓ} : {S : Type ℓ} → Error → Option S → M S (Unit {0})
advance e none s = err e s
advance e (some s') s = ok tt s'

abbrev is_some {ℓ} : {A : Type ℓ} → Option A → Bool
is_some none = false
is_some (some a) = true

module _ (F : FileSystem) where
  unfoldable pub create_directory : FilePath → M F.State (Unit {0})
  create_directory p s = advance create_failed (F.make_directory s p) s

  -- The constructor.
  unfoldable pub make_file_manager : FilePath → M F.State FileManager
  unfolding create_directory
  make_file_manager base s = elim (F.is_directory s base) [
    | none ↦ (do create_directory base; return (record { base_directory = base })) s
    | some true ↦ ok (record { base_directory = base }) s
    | some false ↦ err create_failed s
  ]

  module _ (f : FileManager) where
    unfoldable pub read_file : List ℕ → M F.State (List ℕ)
    read_file name s = expect open_failed (F.read s (path f name)) s

    unfoldable pub create_file : List ℕ → M F.State (Unit {0})
    create_file name s = advance create_failed (F.truncate s (path f name)) s

    -- Whether the file could be opened is not tested.
    unfoldable pub clear_file : List ℕ → M F.State (Unit {0})
    clear_file name s = elim (F.truncate s (path f name)) [ none ↦ ok tt s | some s' ↦ ok tt s' ]

    -- Appends.
    unfoldable pub write_file : List ℕ → List ℕ → M F.State (Unit {0})
    write_file name bytes s = advance open_failed (F.append s (path f name) bytes) s

    unfoldable pub is_file_exists : List ℕ → F.State → Bool
    is_file_exists name s = is_some (F.read s (path f name))

    unfoldable pub delete_file : List ℕ → M F.State (Unit {0})
    unfolding is_file_exists
    delete_file name s =
        if not (is_file_exists name s)
        then ok tt s
        else advance remove_failed (F.remove s (path f name)) s

  -- Neither this nor `rename_file` puts the base directory in front.
  unfoldable pub hash_file : FilePath → M F.State ℕ
  hash_file p s = elim (F.read s p) [ none ↦ err hash_failed s | some bytes ↦ ok (fnv1a bytes) s ]

  unfoldable pub check_file_hash_changed : FilePath → FilePath → M F.State Bool
  unfolding hash_file
  check_file_hash_changed original copy = do
    h ← hash_file original
    k ← hash_file copy
    return (if h == k then false else true)

  unfoldable pub rename_file : FilePath → FilePath → M F.State (Unit {0})
  rename_file p q s = advance rename_failed (F.rename s p q) s
