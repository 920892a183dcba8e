-- ===== src/Tests/Memory.antt =====
-- A file system in memory: a path, less each leading "./", leads to the file of that name.
use mathlib.Core.Option.{some-injective}
use so2_final.Base.{
  ap, sym, ◌∙◌, inl, inr, Option-cases, text_eq_sym, ℕ, ◌≡◌, refl, Bool, true, false, ◌&&◌, Option,
  none, some, List, [], ◌∷◌, ◌++◌, codes, if◌then◌else◌, ◌==◌, text_eq, text_eq_refl, text_eq_iff,
  arith,
}
use so2_final.Files.System.{FileSystem, FilePath, IsFileSystem, IsWilling}

abbrev pub resolve : FilePath → FilePath
resolve [] = []
resolve (a ∷ []) = a ∷ []
resolve (a ∷ b ∷ r) = let inner = resolve r in if a == b'.' && b == b'/' then inner else a ∷ b ∷ r

abbrev pub Store : Type 0
Store = FilePath → Option (List ℕ)

abbrev pub update : Store → FilePath → Option (List ℕ) → Store
update s p v q = if text_eq p q then v else s q

abbrev or_empty : Option (List ℕ) → List ℕ
or_empty none = []
or_empty (some bytes) = bytes

abbrev pub memory : FileSystem
memory = record {
  State = Store;
  read = λ s p. s (resolve p);
  truncate = λ s p. some (update s (resolve p) (some []));
  append = λ s p bytes. some (update s (resolve p) (some (or_empty (s (resolve p)) ++ bytes)));
  remove =
      λ s p. elim (s (resolve p)) [ none ↦ none | some old ↦ some (update s (resolve p) none) ];
  rename = λ s p q. elim (s (resolve p)) [
    | none ↦ none
    | some old ↦ some (update (update s (resolve p) none) (resolve q) (some old))
  ];
  is_directory = λ s p. some true;
  make_directory = λ s p. some s;
}

abbrev pub same : FilePath → FilePath → Bool
same p q = text_eq (resolve p) (resolve q)

pub same_sym : (p q : FilePath) → same p q ≡ same q p
same_sym p q = text_eq_sym (resolve p) (resolve q)

pub same_trans : (p q r : FilePath) → same p q ≡ true → same p r ≡ same q r
same_trans p q r h = ground (arith, text_eq_iff (resolve p) (resolve q))

pub read-same : (s : Store) (p q : FilePath) → same p q ≡ true → s (resolve p) ≡ s (resolve q)
read-same s p q h = ground (arith, text_eq_iff (resolve p) (resolve q))

pub read-truncate :
    (s s' : Store) (p q : FilePath)
    → memory.truncate s p ≡ some s'
    → s' (resolve q) ≡ (if same p q then some [] else s (resolve q))
read-truncate s s' p q e = ap (λ f. f (resolve q)) (sym (some-injective _ _ e))

pub read-append :
    (s s' : Store) (p q : FilePath) (bytes old : List ℕ)
    → memory.append s p bytes ≡ some s'
    → s (resolve p) ≡ some old
    → s' (resolve q) ≡ (if same p q then some (old ++ bytes) else s (resolve q))
read-append s s' p q bytes old e h = ap (λ f. f (resolve q)) (sym (some-injective _ _ e)) ∙ rw h

pub read-remove :
    (s s' : Store) (p q : FilePath)
    → memory.remove s p ≡ some s'
    → s' (resolve q) ≡ (if same p q then none else s (resolve q))
read-remove s s' p q e = elim (Option-cases (s (resolve p))) [
  | inl h ↦ cc (rw h at e)
  | inr (old, h) ↦ ap (λ f. f (resolve q)) (sym (some-injective _ _ (rw h at e)))
]

pub read-rename :
    (s s' : Store) (p q r : FilePath)
    → memory.rename s p q ≡ some s'
    → same p q ≡ false
    → s' (resolve r)
      ≡ (if same q r then s (resolve p) else if same p r then none else s (resolve r))
read-rename s s' p q r e d = elim (Option-cases (s (resolve p))) [
  | inl h ↦ cc (rw h at e)
  | inr (old, h) ↦ ap (λ f. f (resolve r)) (sym (some-injective _ _ (rw h at e))) ∙ rw h
]

pub same_dot : (p : FilePath) → same (codes "./" ++ p) p ≡ true
same_dot p = text_eq_refl (resolve p)

removes :
    (s : Store) (p : FilePath) (old : List ℕ)
    → s (resolve p) ≡ some old
    → (s' : Store) × (memory.remove s p ≡ some s')
removes s p old h = (update s (resolve p) none, rw h)

renames :
    (s : Store) (p q : FilePath) (old : List ℕ)
    → s (resolve p) ≡ some old
    → (s' : Store) × (memory.rename s p q ≡ some s')
renames s p q old h = (update (update s (resolve p) none) (resolve q) (some old), rw h)

abbrev pub memory-IsFileSystem : IsFileSystem memory
memory-IsFileSystem = record {
  same = same;
  same_refl = λ p. text_eq_refl (resolve p);
  same_sym = same_sym;
  same_trans = same_trans;
  same_dot = λ b p d. same_dot (b ∷ p);
  read-same = read-same;
  read-truncate = read-truncate;
  read-append = read-append;
  read-remove = read-remove;
  read-rename = read-rename;
}

pub memory-IsWilling : IsWilling memory
memory-IsWilling = record {
  truncates = λ s p. (update s (resolve p) (some []), refl);
  appends =
      λ s p bytes old h. (update s (resolve p) (some (or_empty (s (resolve p)) ++ bytes)), refl);
  removes = removes;
  renames = renames;
}

-- A disk with one file.
abbrev pub disk : FilePath → List ℕ → Store
disk p bytes = update (λ _. none) p (some bytes)
