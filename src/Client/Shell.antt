-- ===== src/Client/Shell.antt =====
-- `Client::handleIoThread`: the loop over command lines. What it prints is a list of texts.
pub mod Listing
pub mod Uploading
use so2_final.Base.{
  Silence, endless, ℕ, zero, suc, Bool, true, false, not, Option, none, some, List, [], ◌∷◌, ◌++◌,
  codes, text_eq, ◌==◌, if◌then◌else◌, M, Error, ok, err, hang, ◌>>=◌, ◌>>◌, return,
}
use so2_final.Network.Packet.{Packet, number, list, end_of_file}
use so2_final.Network.Wire.{payload_bytes}
use so2_final.Network.Channel.{Channel, send_bare}
use so2_final.Files.System.{FileSystem, FilePath}
use so2_final.Files.Manager.{FileManager, is_file_exists, delete_file}
use so2_final.Transfer.{Host, on_conn, on_files, ends_file}
use so2_final.Client.{download_file}
use so2_final.Client.Commands.{
  Command, upload, download, delete, list_server, list_client, get_sync_dir, exit, unknown,
  parse_command,
}

-- The two directories of the client.
abbrev pub sync_dir : FileManager
sync_dir = record { base_directory = codes "sync_dir" }

abbrev pub current_dir : FileManager
current_dir = record { base_directory = codes "./" }

-- What the thread works on, and what it has printed.
pub record Shell (C : Channel) (F : FileSystem) : Type 0 where
  pub host : Host C F
  pub printed : List (List ℕ)

name_from : List ℕ → List ℕ → List ℕ
name_from name [] = name
name_from name (b ∷ bs) = name_from (if b == b'/' then bs else name) bs

-- The bytes behind the last slash, which `std::filesystem::path::filename` returns.
unfoldable pub file_name : List ℕ → List ℕ
unfolding name_from
file_name path = name_from path path

-- What the library does with whole files and directories. `copy` overwrites; `none` is an
-- exception of class `filesystem_error`.
pub record Copier (F : FileSystem) : Type 0 where
  pub create_directories : F.State → FilePath → Option F.State
  pub copy : F.State → FilePath → FilePath → Option F.State
  -- `FileManager::getFiles` on the synchronized directory.
  pub list_files : F.State → List ℕ

-- How the thread ends: at the end of its input, by `exit`, or by an exception, which ends the
-- process; `unfinished` where a call in it has no result.
pub data Ending (S : Type 0) : Type 0 where
  end_of_input exited : S → Ending S
  terminated : Error → S → Ending S
  unfinished : Silence → Ending S

module _ (C : Channel) (F : FileSystem) (K : Copier F) where
  abbrev pub on_host {ℓ} : {A : Type ℓ} → M (Host C F) A → M (Shell C F) A
  on_host call s = elim (call s.host) [
    | ok a h ↦ ok a (record s { host = h })
    | err e h ↦ err e (record s { host = h })
    | hang w ↦ hang w
  ]

  abbrev pub print : List ℕ → M (Shell C F) (Unit {0})
  print text s = ok tt (record s { printed = s.printed ++ (text ∷ []) })

  -- The `try` block of `upload`; the exception is caught, and printed on another stream.
  unfoldable pub upload_file : List ℕ → M (Shell C F) (Unit {0})
  upload_file name s = elim (K.create_directories s.host.files (codes "sync_dir")) [
    | none ↦ ok tt s
    | some made ↦ elim (K.copy made name (codes "sync_dir/" ++ file_name name)) [
      | none ↦ ok tt (record s { host = record (s.host) { files = made } })
      | some copied ↦ ok tt (record s { host = record (s.host) { files = copied } })
    ]
  ]

  unfoldable pub delete_local : List ℕ → M (Shell C F) (Unit {0})
  delete_local name s =
      if is_file_exists F sync_dir name s.host.files
      then on_host (on_files C F (delete_file F sync_dir name)) s
      else ok tt s

  -- The line that a packet of a listing prints; none for an empty payload.
  abbrev pub print_payload : List ℕ → M (Shell C F) (Unit {0})
  print_payload [] = return tt
  print_payload (b ∷ bs) = print ((b ∷ bs) ++ codes "\n")

  -- The loop of `list_server`. The fuel bounds the packets.
  unfoldable pub print_listing : ℕ → M (Shell C F) (Unit {0})
  print_listing zero = λ s. hang endless
  print_listing (suc fuel) = do
    p ← on_host (on_conn C F C.receive)
    let rest = print_listing fuel
    if ends_file p then return tt else (print_payload (payload_bytes p.payload) >> rest)

  unfoldable pub list_remote : ℕ → M (Shell C F) (Unit {0})
  unfolding print_listing
  list_remote fuel = do on_host (on_conn C F (send_bare C list 1)); print_listing fuel

  abbrev listing_text : List ℕ → List ℕ
  listing_text [] = codes "No files found in the local directory.\n"
  listing_text (b ∷ bs) = codes "Local files:\n" ++ (b ∷ bs)

  -- The body of the loop; the result says whether `exit` is called. The fuel bounds the packets
  -- of an answer.
  unfoldable pub run_command : ℕ → List ℕ → Command → M (Shell C F) Bool
  unfolding upload_file delete_local list_remote
  run_command fuel line (upload name) = do upload_file name; return false
  run_command fuel line (download name) = do
    found ← on_host (download_file C F current_dir fuel name)
    return false
  run_command fuel line (delete name) = do delete_local name; return false
  run_command fuel line list_server = do list_remote fuel; return false
  run_command fuel line list_client =
      λ s. (do print (listing_text (K.list_files s.host.files)); return false) s
  run_command fuel line get_sync_dir = do
    print (codes " Sync Dir path is ./sync_dir\n")
    return false
  run_command fuel line exit = return true
  run_command fuel line unknown = do
    print (codes "Comando <<" ++ (line ++ codes ">> nao reconhecido, tente novamente.\n"))
    return false

  -- The loop over the lines of the input.
  unfoldable pub io_thread : ℕ → List (List ℕ) → Shell C F → Ending (Shell C F)
  unfolding run_command
  io_thread fuel [] s = end_of_input s
  io_thread fuel (line ∷ lines) s = elim (run_command fuel line (parse_command line) s) [
    | ok true s' ↦ exited s'
    | ok false s' ↦ io_thread fuel lines s'
    | err e s' ↦ terminated e s'
    | hang w ↦ unfinished w
  ]
