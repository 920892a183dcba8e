-- ===== src/Files/Manager/Uncalled.antt =====
-- The methods of `FileManager` that nothing calls. What they use of the library and the system
-- beside the file system is an argument.
use so2_final.Base.{
  ℕ, ◌∙◌, arith, ◌≡◌, refl, ap, Bool, Bool-cases, inl, inr, Option, none, some, List, [], ◌∷◌, ◌++◌,
  codes, ◌==◌, if◌then◌else◌, M, ok, err, remove_failed, open_failed,
}
use so2_final.Files.System.{FileSystem, FilePath}
use so2_final.Files.Manager.{FileManager, path, advance}

-- The lines that `getline` reads, one after the other.
first_of : ℕ → List (List ℕ) → List (List ℕ)
first_of b [] = (b ∷ []) ∷ []
first_of b (line ∷ lines) = (b ∷ line) ∷ lines

read_lines : List ℕ → List (List ℕ)
unfolding first_of
read_lines [] = []
read_lines (b ∷ bs) = let rest = read_lines bs in if b == 10 then [] ∷ rest else first_of b rest

-- Each line, and the end of a line behind it.
print_lines : List (List ℕ) → List ℕ
print_lines [] = []
print_lines (line ∷ lines) = line ++ (codes "\n" ++ print_lines lines)

module _ (F : FileSystem) where
  -- `rmdir`
  unfoldable pub delete_directory :
      (F.State → FilePath → Option F.State) → FilePath → M F.State (Unit {0})
  delete_directory rmdir p s = advance remove_failed (rmdir s p) s

  module _ (f : FileManager) where
    -- The heading is printed whether the file can be read or not. The result is `cout` behind the
    -- call, and whether it threw.
    unfoldable pub print_file : List ℕ → F.State → M (List ℕ) (Unit {0})
    unfolding read_lines print_lines
    print_file name s cout =
        let cout' = cout ++ (codes "Printing file: " ++ (path f name ++ codes "\n")) in
        elim (F.read s (path f name)) [
          | none ↦ err open_failed cout'
          | some bytes ↦ ok tt (cout' ++ print_lines (read_lines bytes))
        ]

    -- `exists` and the formatted time of the last write are the library's.
    unfoldable pub get_file_modification_time :
        (FilePath → Bool) → (FilePath → List ℕ) → List ℕ → List ℕ
    get_file_modification_time exists formatted name =
        if exists (path f name) then formatted (path f name) else codes "File does not exist"

print_lines-first_of :
    (b : ℕ) (line : List ℕ) (lines : List (List ℕ))
    → print_lines (first_of b (line ∷ lines)) ≡ b ∷ print_lines (line ∷ lines)
unfolding print_lines first_of
print_lines-first_of b line lines = refl

-- Whether a text has lines at all.
abbrev HasLines : List (List ℕ) → Type 0
HasLines [] = ⊥
HasLines (line ∷ lines) = Unit {0}

first_of-HasLines : (b : ℕ) (lines : List (List ℕ)) → HasLines (first_of b lines)
unfolding first_of
first_of-HasLines b [] = tt
first_of-HasLines b (line ∷ lines) = tt

read_lines-HasLines : (text : List ℕ) → HasLines (read_lines (text ++ codes "\n"))
unfolding read_lines
read_lines-HasLines [] = tt
read_lines-HasLines (b ∷ bs) = elim (Bool-cases (b == 10)) [
  | inl ends ↦ rw (ends, HasLines) tt
  | inr goes ↦ rw (goes, HasLines) (first_of-HasLines b (read_lines (bs ++ codes "\n")))
]

print_first :
    (b : ℕ) (lines : List (List ℕ))
    → HasLines lines
    → print_lines (first_of b lines) ≡ b ∷ print_lines lines
print_first b [] h = absurd h
print_first b (line ∷ lines) h = print_lines-first_of b line lines

-- A text that ends a line is printed as it is.
print_lines-read_lines :
    (text : List ℕ) → print_lines (read_lines (text ++ codes "\n")) ≡ text ++ codes "\n"
unfolding read_lines print_lines
print_lines-read_lines [] = refl
print_lines-read_lines (b ∷ bs) = elim (Bool-cases (b == 10)) [
  | inl ends ↦
      let newline : 10 ≡ b = ground arith in
      rw ends (ap (◌∷◌ 10) (print_lines-read_lines bs) ∙ ap (λ c. c ∷ (bs ++ codes "\n")) newline)
  | inr goes ↦ rw goes (
      print_first b (read_lines (bs ++ codes "\n")) (read_lines-HasLines bs)
      ∙ ap (◌∷◌ b) (print_lines-read_lines bs))
]

-- Behind the heading, a file that ends a line is printed as it is.
pub print_file-text :
    (F : FileSystem) (f : FileManager) (name text : List ℕ) (s : F.State) (cout : List ℕ)
    → F.read s (path f name) ≡ some (text ++ codes "\n")
    → print_file F f name s cout
      ≡ ok tt (
          (cout ++ (codes "Printing file: " ++ (path f name ++ codes "\n")))
          ++ (text ++ codes "\n"))
unfolding print_file
print_file-text F f name text s cout there =
    rw (there, print_file)
      (ap
        (λ shown.
          ok tt ((cout ++ (codes "Printing file: " ++ (path f name ++ codes "\n"))) ++ shown))
        (print_lines-read_lines text))
