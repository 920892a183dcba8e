-- ===== src/Client/Commands/RoundTrip.antt =====
-- Which lines are read as which command.
use so2_final.Base.{
  ◌⊎◌, ℕ, ◌≡◌, refl, sym, ap, ◌∙◌, true, some, List, [], ◌∷◌, ◌++◌, codes, ==_refl, text_eq,
  text_eq_iff, ◌↔◌, ◌⊎◌, ◌≢◌, arith, inl, inr, Option-cases, Bool-cases,
}
use so2_final.Client.Commands.{
  Command, upload, download, delete, list_server, list_client, get_sync_dir, exit, unknown, is_name,
  strip, argument, parse_word, parse_command,
}

-- The line of a command.
abbrev pub line_of : Command → List ℕ
line_of (upload name) = codes "upload " ++ name
line_of (download name) = codes "download " ++ name
line_of (delete name) = codes "delete " ++ name
line_of list_server = codes "list_server"
line_of list_client = codes "list_client"
line_of get_sync_dir = codes "get_sync_dir"
line_of exit = codes "exit"
line_of unknown = []

-- The names that a line can carry.
abbrev pub IsNamed : Command → Type 0
IsNamed (upload name) = is_name name ≡ true
IsNamed (download name) = is_name name ≡ true
IsNamed (delete name) = is_name name ≡ true
IsNamed _ = Unit {0}

strip-append : (verb name : List ℕ) → strip verb (verb ++ name) ≡ some name
unfolding strip
strip-append [] name = refl
strip-append (v ∷ vs) name = rw (==_refl v) (strip-append vs name)

append-strip : (verb line name : List ℕ) → strip verb line ≡ some name → line ≡ verb ++ name
unfolding strip
append-strip [] line name h = cc
append-strip (v ∷ vs) [] name h = cc
append-strip (v ∷ vs) (b ∷ bs) name h = ground (arith, append-strip vs bs name)

append-argument :
    (verb line name : List ℕ)
    → argument verb line ≡ some name
    → (line ≡ verb ++ name) × (is_name name ≡ true)
unfolding argument
append-argument verb line name h = ground (arith, append-strip verb line name)

parse_command-line_of : (c : Command) → IsNamed c → c ≢ unknown → parse_command (line_of c) ≡ c
unfolding parse_command argument strip parse_word text_eq
parse_command-line_of (upload name) h n = rw (h, parse_command)
parse_command-line_of (download name) h n = rw (h, parse_command)
parse_command-line_of (delete name) h n = rw (h, parse_command)
parse_command-line_of list_server h n = refl
parse_command-line_of list_client h n = refl
parse_command-line_of get_sync_dir h n = refl
parse_command-line_of exit h n = refl
parse_command-line_of unknown h n = absurd (n refl)

-- The line is that of the command, unless the command is none.
abbrev Reads : List ℕ → Command → Type 0
Reads line c = (c ≡ unknown) ⊎ ((line ≡ line_of c) × IsNamed c)

matched : (line word : List ℕ) → text_eq line word ≡ true → line ≡ word
matched line word h = (text_eq_iff line word).0 h

parse_word-Reads : (line : List ℕ) → Reads line (parse_word line)
unfolding parse_word
parse_word-Reads line = elim (Bool-cases (text_eq line (codes "list_server"))) [
  | inl a ↦ rw (a, Reads) (inr (matched line (codes "list_server") a, tt))
  | inr a ↦ elim (Bool-cases (text_eq line (codes "list_client"))) [
    | inl b ↦ rw (a, Reads) (rw b (inr (matched line (codes "list_client") b, tt)))
    | inr b ↦ elim (Bool-cases (text_eq line (codes "get_sync_dir"))) [
      | inl c ↦ rw (a, Reads) (rw b (rw c (inr (matched line (codes "get_sync_dir") c, tt))))
      | inr c ↦ elim (Bool-cases (text_eq line (codes "exit"))) [
        | inl d ↦ rw (a, Reads) (rw b (rw c (rw d (inr (matched line (codes "exit") d, tt)))))
        | inr d ↦ rw (a, Reads) (rw b (rw c (rw d (inl refl))))
      ]
    ]
  ]
]

parse_command-Reads : (line : List ℕ) → Reads line (parse_command line)
unfolding parse_command
parse_command-Reads line = elim (Option-cases (argument (codes "upload ") line)) [
  | inr (name, a) ↦ rw (a, Reads) (inr (append-argument (codes "upload ") line name a))
  | inl a ↦ elim (Option-cases (argument (codes "download ") line)) [
    | inr (name, b) ↦ rw (a, Reads) (rw b (inr (append-argument (codes "download ") line name b)))
    | inl b ↦ elim (Option-cases (argument (codes "delete ") line)) [
      | inr (name, c) ↦
          rw (a, Reads) (rw b (rw c (inr (append-argument (codes "delete ") line name c))))
      | inl c ↦ rw (a, Reads) (rw b (rw c (parse_word-Reads line)))
    ]
  ]
]

-- A line is read as a command other than none, whose file name, if it has one, is made of the
-- bytes that the expressions allow, exactly if it is the command's word, with a space and the name
-- behind it if it has one.
pub parse_command_iff :
    (line : List ℕ) (c : Command)
    → IsNamed c
    → c ≢ unknown
    → (parse_command line ≡ c) ↔ (line ≡ line_of c)
parse_command_iff line c h n = (
  λ e. elim (parse_command-Reads line) [
    | inl none_read ↦ absurd (n (sym e ∙ none_read))
    | inr (whole, named) ↦ whole ∙ ap line_of e
  ],
  λ e. ap parse_command e ∙ parse_command-line_of c h n,
)
