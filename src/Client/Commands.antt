-- ===== src/Client/Commands.antt =====
-- The command lines of `handleIoThread` and their regular expressions.
pub mod RoundTrip
use so2_final.Base.{
  ℕ, Bool, true, false, ◌&&◌, ◌||◌, Option, none, some, List, [], ◌∷◌, ◌++◌, codes, leb, ◌==◌,
  if◌then◌else◌, text_eq,
}

pub data Command : Type 0 where
  upload download delete : List ℕ → Command
  list_server list_client get_sync_dir exit unknown : Command

-- `[a-zA-Z0-9_/\.]`
unfoldable pub is_name_byte : ℕ → Bool
is_name_byte b =
    (leb b'a' b && leb b b'z')
    || (leb b'A' b && leb b b'Z')
    || (leb b'0' b && leb b b'9')
    || b == b'_'
    || b == b'/'
    || b == b'.'

unfoldable pub all_name_bytes : List ℕ → Bool
unfolding is_name_byte
all_name_bytes [] = true
all_name_bytes (b ∷ bs) = is_name_byte b && all_name_bytes bs

-- `[a-zA-Z0-9_/\.]+`
unfoldable pub is_name : List ℕ → Bool
unfolding all_name_bytes
is_name [] = false
is_name (b ∷ bs) = all_name_bytes (b ∷ bs)

-- What stands behind the verb.
unfoldable pub strip : List ℕ → List ℕ → Option (List ℕ)
strip [] line = some line
strip (v ∷ vs) [] = none
strip (v ∷ vs) (b ∷ bs) = if v == b then strip vs bs else none

-- `regex_match` with a verb and a group: the group, if the whole line matches.
unfoldable pub argument : List ℕ → List ℕ → Option (List ℕ)
unfolding strip is_name
argument verb line = elim (strip verb line) [
  | none ↦ none
  | some name ↦ if is_name name then some name else none
]

-- The commands without an argument.
unfoldable pub parse_word : List ℕ → Command
parse_word line =
    if text_eq line (codes "list_server")
    then list_server
    else if text_eq line (codes "list_client")
    then list_client
    else if text_eq line (codes "get_sync_dir")
    then get_sync_dir
    else if text_eq line (codes "exit")
    then exit
    else unknown

-- The chain of `else if`.
unfoldable pub parse_command : List ℕ → Command
unfolding argument parse_word
parse_command line = elim (argument (codes "upload ") line) [
  | some name ↦ upload name
  | none ↦ elim (argument (codes "download ") line) [
    | some name ↦ download name
    | none ↦ elim (argument (codes "delete ") line) [
      | some name ↦ delete name
      | none ↦ parse_word line
    ]
  ]
]
