-- ===== src/Overlay.antt =====
-- evaluation/overlay.py: a candidate's files are put over a checkout where every one of them is
-- allowed. Strings are their code points; a tree is its files, so that a directory exists where a
-- file is under it. The digests, the record and the diff for the reader are left out.
pub mod Allowed
pub mod Applied
use lemma_xperiment.Common.{
  ℕ, zero, suc, ◌+◌, Bool, true, false, not, ◌&&◌, ◌||◌, List, [], ◌∷◌, ◌++◌, Option, none, some,
  ◌==◌, ltb, leb, if◌then◌else◌, length, take, drop, eq_list, lookup, insert, has, sort, Outcome,
  ok, err, system_exit, file_error, ◌>>=◌, ◌-◌,
}
use lemma_xperiment.Holdout.Derive.{codes}
use lemma_xperiment.Paired.{leb_bytes}

abbrev pub Text : Type 0
Text = List ℕ

abbrev pub Tree : Type 0
Tree = List (Text × Text)

-- `s.startswith(prefix)`
unfoldable pub starts_with : Text → Text → Bool
starts_with prefix s = eq_list (take (length prefix) s) prefix

-- `needle in s`
unfoldable pub contains : Text → Text → Bool
contains needle [] = starts_with needle []
contains needle (c ∷ s) = starts_with needle (c ∷ s) || contains needle s

-- `s.split(separator)[0]`
unfoldable pub before : Text → Text → Text
before separator [] = []
before separator (c ∷ s) = if starts_with separator (c ∷ s) then [] else c ∷ before separator s

abbrev is_space : ℕ → Bool
is_space c = leb 9 c && leb c 13 || leb 28 c && leb c 32

-- `s.strip()`, of the spaces among the ASCII characters.
unfoldable pub lstrip : Text → Text
lstrip [] = []
lstrip (c ∷ s) = if is_space c then lstrip s else c ∷ s

unfoldable pub rstrip_spaces : Text → Text
rstrip_spaces [] = []
rstrip_spaces (c ∷ s) = chop c (rstrip_spaces s)
  where
    chop : ℕ → Text → Text
    chop c [] = if is_space c then [] else c ∷ []
    chop c (d ∷ s) = c ∷ d ∷ s

-- The pattern of an entry of `allowedSourcePaths`.
unfoldable pub pattern_of : Text → Text
pattern_of entry = lstrip (rstrip_spaces (before (codes " (") entry))

-- `path.split("/")`
unfoldable pub parts : Text → List Text
parts [] = [] ∷ []
parts (c ∷ s) = if c == 47 then [] ∷ parts s else onto c (parts s)
  where
    onto : ℕ → List Text → List Text
    onto c [] = (c ∷ []) ∷ []
    onto c (p ∷ ps) = (c ∷ p) ∷ ps

-- `pat.endswith("/**")`: the text before it.
unfoldable pub directory_of : Text → Option Text
directory_of pat =
    if leb 3 (length pat) && eq_list (drop (length pat - 3) pat) (codes "/**")
    then some (take (length pat - 3) pat)
    else none

-- `os.path.exists`, in the checkout.
unfoldable pub exists_in : Tree → Text → Bool
exists_in [] path = false
exists_in ((p, content) ∷ tree) path =
    eq_list p path || starts_with (path ++ 47 ∷ []) p || exists_in tree path

unfoldable pub is_new_crate : Tree → List Text → Bool
is_new_crate rsp (first ∷ name ∷ third ∷ rest) =
    eq_list first (codes "crates") && not (exists_in rsp (codes "crates/" ++ name))
is_new_crate rsp _ = false

unfoldable pub new_crate : Tree → Text → Bool
new_crate rsp path = is_new_crate rsp (parts path)

-- REVIEWED
unfoldable pub reviewed : List Text
reviewed = codes "Cargo.toml" ∷ codes "Cargo.lock" ∷ []

-- `fnmatch.fnmatchcase` is a parameter.
module _ (fnmatchcase : Text → Text → Bool) (rsp : Tree) where
  unfoldable pub matches_pattern : Text → Text → Bool
  matches_pattern pat path =
      if contains (codes "<new-module-crate>") pat
      then new_crate rsp path
      else elim (directory_of pat) [
        | some directory ↦ starts_with (directory ++ 47 ∷ []) path
        | none ↦ fnmatchcase path pat || eq_list path pat
      ]

  -- No pattern is empty.
  unfoldable pub matches : List Text → Text → Bool
  matches [] path = false
  matches (pat ∷ patterns) path = matches_pattern pat path || matches patterns path

  -- `why` is there.
  unfoldable pub is_allowed : List Text → Text → Bool
  is_allowed patterns path = has path reviewed || matches patterns path

  -- The files outside the allowed paths.
  unfoldable pub denied : List Text → Tree → List Text
  denied patterns [] = []
  denied patterns ((rel, content) ∷ files) =
      if is_allowed patterns rel then denied patterns files else rel ∷ denied patterns files

-- A directory stands where the file is to be, or a file where its directory is.
unfoldable pub clashes : Tree → Text → Bool
clashes [] rel = false
clashes ((p, content) ∷ tree) rel =
    starts_with (rel ++ 47 ∷ []) p || starts_with (p ++ 47 ∷ []) rel || clashes tree rel

-- The loop that copies: how it ends, and the checkout it leaves.
unfoldable pub copy_all : Tree → Tree → Outcome (Unit {0}) × Tree
copy_all [] rsp = (ok tt, rsp)
copy_all ((rel, content) ∷ files) rsp = elim (clashes rsp rel) [
  | true ↦ (err file_error, rsp)
  | false ↦ copy_all files (insert rel content rsp)
]

unfoldable pub patterns_of : List Text → List Text
patterns_of [] = []
patterns_of (entry ∷ entries) = pattern_of entry ∷ patterns_of entries

unfoldable pub by_name : Text × Text → Text × Text → Bool
by_name (p, x) (q, y) = leb_bytes p q

-- The script: the entries of the specification, the files of the overlay, and the checkout.
unfoldable pub apply_overlay :
    (Text → Text → Bool) → List Text → Tree → Tree → Outcome (Unit {0}) × Tree
apply_overlay fnmatchcase entries overlay rsp =
    let files = sort by_name overlay in
    elim (denied fnmatchcase rsp (patterns_of entries) files) [
      | [] ↦ copy_all files rsp
      | _ ∷ _ ↦ (err system_exit, rsp)
    ]
