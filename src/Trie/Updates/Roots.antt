-- ===== src/Trie/Updates/Roots.antt =====
-- apply_updates as a whole: the order of the accounts in a batch, and the roots that it returns.
use lemma_xperiment.Common.{
  ◌≡◌, refl, ◌∙◌, sym, ap, subst, List, [], ◌∷◌, Option, none, some, eq_list, eq_list→eq, ok,
  or_raise, Bool-cases, inl, inr, lookup, HasUniqueKeys, >>=-eq-ok, key_error, or_raise-eq-ok, All,
  All-map, own_entries,
}
use lemma_xperiment.Trie.Nibbles.{Bytes}
use lemma_xperiment.Trie.Walk.{Library}
use lemma_xperiment.Trie.Accounts.{HexaryTrie, HexaryLaws, RlpLaws, account_fields, AccountFields}
use lemma_xperiment.Trie.Accounts.Encoding.{account_fields-account_rlp}
use lemma_xperiment.Trie.Updates.{
  Account, Batch, State, code_of, apply_account, apply_accounts, roots_of, apply_updates,
}
use lemma_xperiment.Trie.Updates.Effect.{Effect, Base, HasNoStorage, apply_account-Effect}

module _ (lib : Library) (h : HexaryTrie) (batch : Batch) where
  Base-same :
      (s s' : State lib h) (k : Bytes) (base : h.T)
      → Effect lib h batch s s' k none
      → Base lib h batch s' k base
      → Base lib h batch s k base
  Base-same s s' k base (leaf, trie) (Base.known there) = Base.known (sym trie ∙ there)
  Base-same s s' k base (leaf, trie) (Base.fresh new empty none_yet) =
      Base.fresh (sym trie ∙ new) empty (subst (HasNoStorage lib h batch) leaf none_yet)

  -- An update of an account that nothing touched before, and one that nothing touches after.
  Effect-after :
      (s s1 s' : State lib h) (k : Bytes) (u : Option (Option Account))
      → Effect lib h batch s s1 k none
      → Effect lib h batch s1 s' k u
      → Effect lib h batch s s' k u
  Effect-after s s1 s' k none (p, q) (p', q') = (p' ∙ p, q' ∙ q)
  Effect-after s s1 s' k (some none) (p, q) (p', q') = (p', q' ∙ q)
  Effect-after s s1 s' k (some (some a)) e r = record {
    trie = r.trie;
    kept = r.kept;
    leaf = r.leaf;
    writes = record {
      base = r.writes.base;
      found = Base-same s s1 k r.writes.base e r.writes.found;
      slots = r.writes.slots;
    };
  }

  Effect-before :
      (s s1 s' : State lib h) (k : Bytes) (acct : Option Account)
      → Effect lib h batch s s1 k (some acct)
      → Effect lib h batch s1 s' k none
      → Effect lib h batch s s' k (some acct)
  Effect-before s s1 s' k none (p, q) (p', q') = (p' ∙ p, q' ∙ q)
  Effect-before s s1 s' k (some a) r (p', q') = record {
    trie = r.trie;
    kept = q' ∙ r.kept;
    leaf = p' ∙ r.leaf;
    writes = r.writes;
  }

  pub apply_from-Effect :
      (s s' : State lib h) (accounts : List (Bytes × Option Account)) (k : Bytes)
      → RlpLaws lib
      → HexaryLaws h
      → HasUniqueKeys accounts
      → apply_accounts lib h batch s accounts ≡ ok s'
      → Effect lib h batch s s' k (lookup k accounts)
  unfolding apply_accounts lookup
  apply_from-Effect s s' [] k rlp laws unique done =
      let same : s ≡ s' = cc in subst (λ z. Effect lib h batch s z k none) same (refl, refl)
  apply_from-Effect s s' ((ha, acct) ∷ accounts) k rlp laws (fresh, unique) done =
      let (s1, first, rest) = >>=-eq-ok (apply_account lib h batch s ha acct) _ done in
      let (here, elsewhere) = apply_account-Effect lib h batch rlp laws s s1 ha acct first in
      let later = apply_from-Effect s1 s' accounts k rlp laws unique rest in
      elim (Bool-cases (eq_list ha k)) [
        | inl same ↦ rw same (
            subst (λ z. Effect lib h batch s s' z (some acct)) (eq_list→eq ha k same)
              (Effect-before s s1 s' ha acct here (
                rw fresh at (
                  subst (λ z. Effect lib h batch s1 s' z (lookup z accounts))
                    (sym (eq_list→eq ha k same)) later))))
        | inr other ↦
            rw other (Effect-after s s1 s' k (lookup k accounts) (elsewhere k other) later)
      ]

-- An updated account's leaf carries the storage root that is listed for it.
abbrev pub CarriesRoot : (lib : Library) (h : HexaryTrie) → State lib h → Bytes × Bytes → Type 0
CarriesRoot lib h s (ha, root) =
    (fields : AccountFields) × (account_fields lib (h.get s.state ha) ≡ ok fields)
    × (fields.storage_root ≡ root)

module _ (lib : Library) (h : HexaryTrie) (batch : Batch) (rlp : RlpLaws lib) where
  roots_of-CarriesRoot :
      (s s' : State lib h) (accounts : List (Bytes × Option Account)) (roots : List (Bytes × Bytes))
      → All (λ (e : Bytes × Option Account). Effect lib h batch s s' e.0 (some e.1)) accounts
      → roots_of lib h s' accounts ≡ ok roots
      → All (CarriesRoot lib h s') roots
  unfolding roots_of
  roots_of-CarriesRoot s s' [] [] effects done = tt
  roots_of-CarriesRoot s s' [] (r ∷ roots) effects done = cc
  roots_of-CarriesRoot s s' ((ha, none) ∷ accounts) roots effects done =
      roots_of-CarriesRoot s s' accounts roots effects.1 done
  roots_of-CarriesRoot s s' ((ha, some a) ∷ accounts) roots effects done =
      let r = effects.0 in
      let (t, found, h1) = >>=-eq-ok (or_raise (lookup ha s'.tries) key_error) _ done in
      let (later, listed, h2) = >>=-eq-ok (roots_of lib h s' accounts) _ h1 in
      let same : t ≡ r.trie = some_inj (sym (or_raise-eq-ok _ _ found) ∙ r.kept) in
      let all : (ha, (h.view t).root) ∷ later ≡ roots = cc in
      subst (All (CarriesRoot lib h s')) all (
        (
          _,
          ap (account_fields lib) r.leaf
              ∙ account_fields-account_rlp lib a.nonce a.balance (h.view r.trie).root
                  (code_of lib a) rlp,
          ap (λ u. (h.view u).root) (sym same),
        ),
        roots_of-CarriesRoot s s' accounts later effects.1 listed,
      )
    where
      some_inj : {x y : h.T} → some x ≡ some y → x ≡ y
      some_inj e = cc

-- With the laws of rlp and py-trie: a batch whose addresses are distinct, applied without an exception, has this effect: an account
-- that it deletes reads as absent, an account that it writes has a leaf with the nonce, balance and
-- code hash given and the root of a storage trie whose slots read as the batch's last writes say
-- (all others as in the account's storage trie before, which is the known one, or an empty one for
-- an account that was absent or whose leaf had the root of an empty storage, and empty where the
-- batch wipes the storage), and every other account and
-- storage trie reads as before.
pub apply_updates-Effect :
    (lib : Library) (h : HexaryTrie) (s : State lib h) (batch : Batch) (root : Bytes)
    (roots : List (Bytes × Bytes))
    → RlpLaws lib
    → HexaryLaws h
    → HasUniqueKeys batch.accounts
    → apply_updates lib h s batch ≡ ok (root, roots)
    → (s' : State lib h) × (apply_accounts lib h batch s batch.accounts ≡ ok s')
      × (root ≡ (h.view s'.state).root)
      × ((k : Bytes) → Effect lib h batch s s' k (lookup k batch.accounts))
unfolding apply_updates
apply_updates-Effect lib h s batch root roots rlp laws unique done =
    let (s', applied, h1) = >>=-eq-ok (apply_accounts lib h batch s batch.accounts) _ done in
    let (roots', listed, h2) = >>=-eq-ok (roots_of lib h s' batch.accounts) _ h1 in
    (
      s',
      applied,
      cc,
      λ k. apply_from-Effect lib h batch s s' batch.accounts k rlp laws unique applied,
    )

-- With the laws of rlp and py-trie: the storage roots that a batch with distinct addresses returns are those of the leaves: in the
-- state trie whose root is returned, the leaf of every listed address decodes to fields with the
-- storage root that is listed for it.
pub apply_updates-CarriesRoot :
    (lib : Library) (h : HexaryTrie) (s : State lib h) (batch : Batch) (root : Bytes)
    (roots : List (Bytes × Bytes))
    → RlpLaws lib
    → HexaryLaws h
    → HasUniqueKeys batch.accounts
    → apply_updates lib h s batch ≡ ok (root, roots)
    → (s' : State lib h) × (apply_accounts lib h batch s batch.accounts ≡ ok s')
      × (root ≡ (h.view s'.state).root)
      × All (CarriesRoot lib h s') roots
unfolding apply_updates
apply_updates-CarriesRoot lib h s batch root roots rlp laws unique done =
    let (s', applied, h1) = >>=-eq-ok (apply_accounts lib h batch s batch.accounts) _ done in
    let (roots', listed, h2) = >>=-eq-ok (roots_of lib h s' batch.accounts) _ h1 in
    let same : roots' ≡ roots = cc in
    let effects =
      All-map _ (λ (e : Bytes × Option Account). Effect lib h batch s s' e.0 (some e.1))
        batch.accounts
        (λ e found.
          subst (Effect lib h batch s s' e.0) found
            (apply_from-Effect lib h batch s s' batch.accounts e.0 rlp laws unique applied))
        (own_entries batch.accounts unique) in
    (
      s',
      applied,
      cc,
      roots_of-CarriesRoot lib h batch rlp s s' batch.accounts roots effects (rw same at listed),
    )
