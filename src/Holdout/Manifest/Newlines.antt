-- ===== src/Holdout/Manifest/Newlines.antt =====
-- The hash of a file that cmd_verify compares: of the whole file, or of the file without the
-- newlines at its end.
use lemma_xperiment.Common.{
  ℕ, zero, suc, ◌≡◌, refl, ◌∙◌, ap, subst, true, false, [], ◌∷◌, ◌++◌, ◌==◌, ==_iff, eq_list,
  eq_list→eq, Bool-cases, inl, inr,
}
use lemma_xperiment.Holdout.Derive.{Bytes}
use lemma_xperiment.Holdout.State.{Host}
use lemma_xperiment.Holdout.Manifest.{strip_step, rstrip, ends_with_newline, hash_for}

pub newlines : ℕ → Bytes
newlines zero = []
newlines (suc n) = 10 ∷ newlines n

pub EndsInNewline : Bytes → Type 0
EndsInNewline xs = (ys : Bytes) × (xs ≡ ys ++ 10 ∷ [])

-- A digest is that of the file, or that of what is left of it without its newlines at the end.
pub data IsDigest (sha256 : Bytes → Bytes) (file digest : Bytes) : Type 0 where
  whole : sha256 file ≡ digest → IsDigest sha256 file digest
  stripped :
      (text : Bytes) (n : ℕ)
      → file ≡ text ++ newlines (suc n)
      → ¬ EndsInNewline text
      → sha256 text ≡ digest
      → IsDigest sha256 file digest

empty-not-EndsInNewline : ¬ EndsInNewline []
unfolding EndsInNewline
empty-not-EndsInNewline ([], e) = cc
empty-not-EndsInNewline (y ∷ ys, e) = cc

cons-EndsInNewline : (x y : ℕ) (ys : Bytes) → EndsInNewline (x ∷ y ∷ ys) → EndsInNewline (y ∷ ys)
unfolding EndsInNewline
cons-EndsInNewline x y ys ([], e) = cc
cons-EndsInNewline x y ys (z ∷ zs, e) = (zs, cc)

one-not-EndsInNewline : (x : ℕ) → (x == 10) ≡ false → ¬ EndsInNewline (x ∷ [])
unfolding EndsInNewline
one-not-EndsInNewline x h ([], e) = let same : x ≡ 10 = cc in cc (h, (==_iff x 10).1 same)
one-not-EndsInNewline x h (z ∷ zs, e) =
    let rest : [] ≡ zs ++ 10 ∷ [] = cc in empty-not-EndsInNewline (zs, rest)

strip_step-clean : (x : ℕ) (r : Bytes) → ¬ EndsInNewline r → ¬ EndsInNewline (strip_step x r)
unfolding strip_step
strip_step-clean x [] clean = elim (Bool-cases (x == 10)) [
  | inl newline ↦ rw newline empty-not-EndsInNewline
  | inr other ↦ rw other (one-not-EndsInNewline x other)
]
strip_step-clean x (y ∷ ys) clean = λ h. clean (cons-EndsInNewline x y ys h)

rstrip-clean : (xs : Bytes) → ¬ EndsInNewline (rstrip xs)
unfolding rstrip
rstrip-clean [] = empty-not-EndsInNewline
rstrip-clean (x ∷ xs) = strip_step-clean x (rstrip xs) (rstrip-clean xs)

strip_step-split :
    (x : ℕ) (r xs : Bytes) (n : ℕ)
    → xs ≡ r ++ newlines n
    → (m : ℕ) × (x ∷ xs ≡ strip_step x r ++ newlines m)
unfolding strip_step newlines
strip_step-split x [] xs n e = elim (Bool-cases (x == 10)) [
  | inl newline ↦ (suc n, rw (newline, e, (==_iff x 10).0 newline) refl)
  | inr other ↦ (n, rw (other, e) refl)
]
strip_step-split x (y ∷ ys) xs n e = (n, ap (λ r. x ∷ r) e)

rstrip-split : (xs : Bytes) → (n : ℕ) × (xs ≡ rstrip xs ++ newlines n)
unfolding rstrip newlines
rstrip-split [] = (0, refl)
rstrip-split (x ∷ xs) = let (n, e) = rstrip-split xs in strip_step-split x (rstrip xs) xs n e

ends_with_newline-EndsInNewline : (xs : Bytes) → ends_with_newline xs ≡ true → EndsInNewline xs
unfolding EndsInNewline
ends_with_newline-EndsInNewline [] h = cc
ends_with_newline-EndsInNewline (x ∷ []) h = ([], rw ((==_iff x 10).0 h) refl)
ends_with_newline-EndsInNewline (x ∷ y ∷ ys) h =
    let (zs, e) = ends_with_newline-EndsInNewline (y ∷ ys) h in (x ∷ zs, ap (λ r. x ∷ r) e)

append_empty : (xs : Bytes) → xs ++ [] ≡ xs
append_empty [] = refl
append_empty (x ∷ xs) = ap (λ r. x ∷ r) (append_empty xs)

module _ (host : Host) (file digest : Bytes) where
  rstrip-IsDigest :
      EndsInNewline file
      → host.sha256 (rstrip file) ≡ digest
      → (n : ℕ) → file ≡ rstrip file ++ newlines n
      → IsDigest host.sha256 file digest
  unfolding newlines
  rstrip-IsDigest ends same zero e =
      absurd (rstrip-clean file (subst EndsInNewline (e ∙ append_empty (rstrip file)) ends))
  rstrip-IsDigest ends same (suc n) e = IsDigest.stripped (rstrip file) n e (rstrip-clean file) same

  -- The hash that is compared is that of the file, or that of the file less its last newlines.
  pub hash_for-IsDigest : hash_for host digest file ≡ digest → IsDigest host.sha256 file digest
  unfolding hash_for
  hash_for-IsDigest h = elim (Bool-cases (eq_list (host.sha256 file) digest)) [
    | inl same ↦ IsDigest.whole (eq_list→eq _ _ same)
    | inr differs ↦ elim (Bool-cases (ends_with_newline file)) [
      | inl ends ↦
          let (n, e) = rstrip-split file in
          rstrip-IsDigest (ends_with_newline-EndsInNewline file ends) (rw (differs, ends) at h) n e
      | inr bare ↦ IsDigest.whole (rw (differs, bare) at h)
    ]
  ]
