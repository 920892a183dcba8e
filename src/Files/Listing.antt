-- ===== src/Files/Listing.antt =====
-- `FileManager::getFiles`: the text of a directory.
use so2_final.Base.{
  ℕ, ◌≡◌, sym, ◌∙◌, Bool, Option, none, some, List, [], ◌∷◌, ◌++◌, codes, if◌then◌else◌,
  append_assoc, append-nil, Bool-cases, inl, inr,
}

-- The three times, as the library formats them.
pub record Times : Type 0 where
  pub mtime : List ℕ
  pub atime : List ℕ
  pub ctime : List ℕ

-- What the library tells of an entry; `none` if `stat` fails.
pub record Entry : Type 0 where
  pub name : List ℕ
  pub is_regular : Bool
  pub times : Option Times

-- `getFiles` on the entries of the base directory.
pub entry_line : Entry → List ℕ
entry_line e = elim e.times [
  | none ↦ e.name ++ codes " (erro ao obter stat)\n"
  | some t ↦
      e.name
      ++ (codes " (mtime: "
          ++ (t.mtime
              ++ (codes ", atime: "
                  ++ (t.atime ++ (codes ", ctime: " ++ (t.ctime ++ codes ")\n"))))))
]

-- The stream, to which the line of each regular file is added.
write_entries : List Entry → List ℕ → List ℕ
unfolding entry_line
write_entries [] result = result
write_entries (e ∷ es) result =
    let rest = write_entries es (if e.is_regular then result ++ entry_line e else result) in rest

unfoldable pub get_files : List Entry → List ℕ
unfolding write_entries
get_files es = write_entries es []

-- The lines of the regular files, in the order of the entries.
abbrev pub lines_of : List Entry → List ℕ
lines_of [] = []
lines_of (e ∷ es) = if e.is_regular then entry_line e ++ lines_of es else lines_of es

write_entries-lines :
    (es : List Entry) (result : List ℕ) → write_entries es result ≡ result ++ lines_of es
unfolding write_entries
write_entries-lines [] result = sym (append-nil result)
write_entries-lines (e ∷ es) result = elim (Bool-cases e.is_regular) [
  | inl file ↦ rw file (
      write_entries-lines es (result ++ entry_line e)
      ∙ append_assoc result (entry_line e) (lines_of es))
  | inr other ↦ rw other (write_entries-lines es result)
]

-- The listing is one line for each regular file, in the order of the entries, and nothing else.
pub get_files-lines : (es : List Entry) → get_files es ≡ lines_of es
unfolding get_files
get_files-lines es = write_entries-lines es []
