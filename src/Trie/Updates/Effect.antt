-- ===== src/Trie/Updates/Effect.antt =====
-- What a batch does to the tries: every account reads as the batch says, and nothing else changes.
use lemma_xperiment.Common.{
  ◌≡◌, refl, ◌∙◌, ap, subst, false, [], Option, none, some, if◌then◌else◌, eq_list, eq_list_refl,
  ok, Bool-cases, inl, inr, lookup, insert, lookup-insert, >>=-eq-ok, ◌⊎◌, >>=-elim, require,
  require-eq-ok, assertion_error, eq_list→eq, Option-cases, ok_inj, ◌∷◌,
}
use lemma_xperiment.Trie.Nibbles.{Bytes}
use lemma_xperiment.Trie.Walk.{Library, empty_root}
use lemma_xperiment.Trie.Accounts.{
  HexaryTrie, HexaryLaws, RlpLaws, account_rlp, AccountFields, account_fields,
}
use lemma_xperiment.Trie.Accounts.Encoding.{account_rlp_ne}
use lemma_xperiment.Trie.Updates.{
  Account, Batch, State, code_of, update_of, storage_of, apply_account, fresh_storage,
  known_or_fresh,
}
use lemma_xperiment.Trie.Updates.Slots.{written, apply_slots-written}

module _ (lib : Library) (h : HexaryTrie) (batch : Batch) where
  -- An account that is absent, or whose leaf has the root of an empty storage.
  abbrev pub HasNoStorage : Bytes → Type 0
  HasNoStorage existing =
      (existing ≡ [])
      ⊎ ((fields : AccountFields) × (account_fields lib existing ≡ ok fields)
          × (fields.storage_root ≡ empty_root lib))

  -- The storage of an account before the batch: the known one, or else an empty one.
  pub data Base (s : State lib h) (ha : Bytes) (base : h.T) : Type 0 where
    known : lookup ha s.tries ≡ some base → Base s ha base
    fresh :
        lookup ha s.tries ≡ none → base ≡ h.empty → HasNoStorage (h.get s.state ha) → Base s ha base

  fresh_storage-empty :
      (existing : Bytes) (base : h.T)
      → fresh_storage lib h existing ≡ ok base
      → (base ≡ h.empty) × HasNoStorage existing
  unfolding fresh_storage
  fresh_storage-empty [] base done = (cc, inl refl)
  fresh_storage-empty (x ∷ existing) base done =
      >>=-elim (account_fields lib (x ∷ existing)) _ done λ fields decoded h1.
        >>=-elim (require (eq_list fields.storage_root (empty_root lib)) assertion_error) _ h1
          λ _ same h2. (cc, inr (fields, decoded, eq_list→eq _ _ (require-eq-ok _ _ same)))

  storage_of-Base :
      (s : State lib h) (ha : Bytes) (base : h.T) → storage_of lib h s ha ≡ ok base → Base s ha base
  unfolding storage_of known_or_fresh
  storage_of-Base s ha base done = elim (Option-cases (lookup ha s.tries)) [
    | inl new ↦
        let (empty, none_yet) =
          fresh_storage-empty (h.get s.state ha) base (rw (new, known_or_fresh) at done) in
        Base.fresh new empty none_yet
    | inr (t, there) ↦
        let same : ok t ≡ ok base = rw (there, known_or_fresh) at done in
        Base.known (there ∙ ap some (ok_inj same))
  ]

  -- The trie that an account's slots are written to: its own, or a new one.
  pub record Writes (s : State lib h) (ha : Bytes) (t : h.T) : Type 0 where
    pub base : h.T
    pub found : Base s ha base
    pub slots :
        (hs : Bytes)
        → h.get t hs
          ≡ written lib
              (update_of batch ha).slots
              hs
              (if (update_of batch ha).wiped then [] else h.get base hs)

  pub record Rewritten (s s' : State lib h) (ha : Bytes) (a : Account) : Type 0 where
    pub trie : h.T
    pub kept : lookup ha s'.tries ≡ some trie
    pub leaf :
        h.get s'.state ha ≡ account_rlp lib a.nonce a.balance (h.view trie).root (code_of lib a)
    pub writes : Writes s ha trie

  -- An account between the states before and after, by what the batch says of it.
  abbrev pub Effect : State lib h → State lib h → Bytes → Option (Option Account) → Type 0
  Effect s s' ha none =
      (h.get s'.state ha ≡ h.get s.state ha) × (lookup ha s'.tries ≡ lookup ha s.tries)
  Effect s s' ha (some none) = (h.get s'.state ha ≡ []) × (lookup ha s'.tries ≡ lookup ha s.tries)
  Effect s s' ha (some (some a)) = Rewritten s s' ha a

  module _ (rlp : RlpLaws lib) (laws : HexaryLaws h) where
    rewritten :
        (s s' : State lib h) (ha : Bytes) (a : Account)
        → apply_account lib h batch s ha (some a) ≡ ok s'
        → Rewritten s s' ha a × ((k : Bytes) → eq_list ha k ≡ false → Effect s s' k none)
    unfolding apply_account
    rewritten s s' ha a done =
        let (base, found, h1) = >>=-eq-ok (storage_of lib h s ha) _ done in
        let start = if (update_of batch ha).wiped then h.empty else base in
        let (t, ran, reads) = apply_slots-written lib h start (update_of batch ha).slots rlp laws in
        let value = account_rlp lib a.nonce a.balance (h.view t).root (code_of lib a) in
        let after : State lib h = record {
          state = h.set s.state ha value;
          tries = insert ha t s.tries;
        } in
        let same : after ≡ s' = cc (rw (found, ran) at done) in
        let stored = laws.get-set s.state ha value ha (account_rlp_ne lib _ _ _ _ rlp) in
        subst (λ z. Rewritten s z ha a × ((k : Bytes) → eq_list ha k ≡ false → Effect s z k none))
          same
          (
            record {
              trie = t;
              kept = lookup-insert ha ha t s.tries ∙ rw (eq_list_refl ha) refl;
              leaf = stored ∙ rw (eq_list_refl ha) refl;
              writes = record {
                base = base;
                found = storage_of-Base s ha base found;
                slots =
                    λ hs. reads hs ∙ ap (written lib (update_of batch ha).slots hs) (begin base hs);
              };
            },
            λ k other. (
              laws.get-set s.state ha value k (account_rlp_ne lib _ _ _ _ rlp) ∙ rw other refl,
              lookup-insert ha k t s.tries ∙ rw other refl,
            ),
          )
      where
        begin :
            (base : h.T) (hs : Bytes)
            → h.get (if (update_of batch ha).wiped then h.empty else base) hs
              ≡ (if (update_of batch ha).wiped then [] else h.get base hs)
        begin base hs = elim (Bool-cases (update_of batch ha).wiped) [
          | inl w ↦ rw w (laws.get-empty hs)
          | inr w ↦ rw w refl
        ]

    deleted :
        (s s' : State lib h) (ha : Bytes)
        → apply_account lib h batch s ha none ≡ ok s'
        → Effect s s' ha (some none) × ((k : Bytes) → eq_list ha k ≡ false → Effect s s' k none)
    unfolding apply_account
    deleted s s' ha done =
        let after : State lib h = record s { state = h.delete s.state ha } in
        let same : after ≡ s' = cc in
        subst
          (λ z.
            Effect s z ha (some none) × ((k : Bytes) → eq_list ha k ≡ false → Effect s z k none))
          same
          (
            (laws.get-delete s.state ha ha ∙ rw (eq_list_refl ha) refl, refl),
            λ k other. (laws.get-delete s.state ha k ∙ rw other refl, refl),
          )

    -- One account's update.
    pub apply_account-Effect :
        (s s' : State lib h) (ha : Bytes) (acct : Option Account)
        → apply_account lib h batch s ha acct ≡ ok s'
        → Effect s s' ha (some acct) × ((k : Bytes) → eq_list ha k ≡ false → Effect s s' k none)
    apply_account-Effect s s' ha none done = deleted s s' ha done
    apply_account-Effect s s' ha (some a) done = rewritten s s' ha a done
