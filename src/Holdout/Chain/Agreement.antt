-- ===== src/Holdout/Chain/Agreement.antt =====
-- agreed_header returns what both providers say.
use lemma_xperiment.Common.{
  ℕ, zero, suc, ◌+◌, ◌≡◌, ◌≢◌, some, ◌==◌, ok, err, system_exit, out_of_fuel, or_raise, require,
  >>=-eq-ok, or_raise-eq-ok, require-eq-ok, arith, Bool-cases, inl, inr,
}
use lemma_xperiment.Blocks.{Field, Header, eq_header, eq_header→eq}
use lemma_xperiment.Holdout.Chain.{
  Source, Which, Net, Attempted, rpc_from, rpc, header, agreed_header,
}

-- Where two providers agree on a header, the second one gave the same value for every field.
pub agreed_header-both :
    (net : Net) (which : Which) (h : Header)
    → agreed_header net which ≡ ok h
    → (archive : Source) × (net.archive ≡ some archive)
      × (header archive which ≡ ok h)
      × ((g : Header) × (header net.public which ≡ ok g) × ((f : Field) → h f ≡ g f))
unfolding agreed_header
agreed_header-both net which h done =
    let (archive, set, h1) = >>=-eq-ok (or_raise net.archive system_exit) _ done in
    let (h', first, h2) = >>=-eq-ok (header archive which) _ h1 in
    let (g, second, h3) = >>=-eq-ok (header net.public which) _ h2 in
    let (_, same, h4) = >>=-eq-ok (require (eq_header h' g) system_exit) _ h3 in
    let e : h' ≡ h = cc in
    (
      archive,
      or_raise-eq-ok _ _ set,
      cc,
      (g, second, λ f. eq_header→eq h g f (rw e at (require-eq-ok _ _ same))),
    )

rpc_from-ends :
    (left attempt : ℕ) (attempts : ℕ → Attempted)
    → left + attempt ≡ 4
    → attempt ≢ 4
    → rpc_from left attempt attempts ≢ err out_of_fuel
unfolding rpc_from
rpc_from-ends zero attempt attempts e below = absurd (omega arith)
rpc_from-ends (suc left) attempt attempts e below = elim (Bool-cases (attempt == 3)) [
  | inl last ↦ λ h. ground arith
  | inr more ↦ λ h. ground (arith, rpc_from-ends left (attempt + 1) attempts)
]

-- Four attempts are all that `rpc` makes: it ends with a result or an exit.
pub rpc_ends : (attempts : ℕ → Attempted) → rpc attempts ≢ err out_of_fuel
unfolding rpc
rpc_ends attempts = rpc_from-ends 4 0 attempts (omega arith) (omega arith)
