-- ===== src/Tests/Uploads.antt =====
-- An upload at concrete inputs.
use so2_final.Base.{
  ℕ, ◌≡◌, refl, false, some, none, List, [], ◌∷◌, codes, text_eq, if◌then◌else◌, arith,
}
use so2_final.Network.Channel.Queue.{queue_channel}
use so2_final.Files.System.{FilePath}
use so2_final.Client.Shell.{Copier, Shell, io_thread}
use so2_final.Client.Commands.{is_name}
use so2_final.Client.Shell.Uploading.{IsCopier, upload-copies}
use so2_final.Tests.Memory.{Store, memory, memory-IsFileSystem, disk, same, update, resolve}

abbrev copier : Copier memory
copier = record {
  create_directories = λ s p. some s;
  copy = λ s p q. elim (s (resolve p)) [
    | none ↦ none
    | some bytes ↦ some (update s (resolve q) (some bytes))
  ];
  list_files = λ s. [];
}

copies :
    (s : Store) (p q : FilePath) (bytes : List ℕ)
    → memory.read s p ≡ some bytes
    → (s' : Store) × (copier.copy s p q ≡ some s')
      × ((r : FilePath) → memory.read s' r ≡ (if same q r then some bytes else memory.read s r))
copies s p q bytes there = (update s (resolve q) (some bytes), rw there refl, λ r. refl)

copier-IsCopier : IsCopier memory memory-IsFileSystem copier
copier-IsCopier = record {
  creates = λ s p ready. (s, refl, λ q. refl);
  copies = λ s p q bytes there apart. copies s p q bytes there;
}

abbrev at_prompt : Shell queue_channel memory
at_prompt = record {
  host = record {
    conn = record { inbox = []; outbox = [] };
    files = disk (codes "docs/f") (codes "new");
  };
  printed = [];
}

upload-copies_example :
    (f : Store) × (io_thread queue_channel memory copier 5
        (codes "upload docs/f" ∷ codes "exit" ∷ [])
        at_prompt
      ≡ io_thread queue_channel memory copier 5
          (codes "exit" ∷ [])
          (record at_prompt { host = record (at_prompt.host) { files = f } }))
    × (memory.read f (codes "sync_dir/f") ≡ some (codes "new"))
    × ((r : FilePath)
        → same (codes "sync_dir/f") r ≡ false
        → memory.read f r ≡ memory.read (at_prompt.host.files) r)
unfolding is_name text_eq
upload-copies_example =
    upload-copies queue_channel memory memory-IsFileSystem copier copier-IsCopier 5 (codes "docs/")
      (codes "f") (codes "new") (codes "exit" ∷ []) at_prompt refl refl (omega arith, tt) refl refl
      refl
