-- ===== src/Trie/Updates/Slots.antt =====
-- The writes to one storage trie.
use lemma_xperiment.Common.{
  ℕ, ◌≡◌, refl, ◌∙◌, ap, List, [], ◌∷◌, ◌==◌, if◌then◌else◌, eq_list, ok, Bool-cases, inl, inr,
}
use lemma_xperiment.Trie.Nibbles.{Bytes}
use lemma_xperiment.Trie.Walk.{Library, str}
use lemma_xperiment.Trie.Accounts.{HexaryTrie, HexaryLaws, RlpLaws}
use lemma_xperiment.Trie.Accounts.Encoding.{u256_rlp-pos}
use lemma_xperiment.Trie.Updates.{apply_slots}

-- What a slot reads as after a list of writes, from what it read as before: the last write to it
-- counts, and a zero clears it.
pub written : Library → List (Bytes × ℕ) → Bytes → Bytes → Bytes
written lib [] hs old = old
written lib ((k, v) ∷ slots) hs old =
    written lib slots hs
      (if eq_list k hs then (if v == 0 then [] else lib.encode (str (lib.int_bytes v))) else old)

-- With the laws of rlp and py-trie: the writes to a storage trie never raise, and every slot then reads as its last write says.
pub apply_slots-written :
    (lib : Library) (h : HexaryTrie) (t : h.T) (slots : List (Bytes × ℕ))
    → RlpLaws lib
    → HexaryLaws h
    → (t' : h.T) × (apply_slots lib h t slots ≡ ok t')
      × ((hs : Bytes) → h.get t' hs ≡ written lib slots hs (h.get t hs))
unfolding apply_slots written
apply_slots-written lib h t [] rlp laws = (t, refl, λ hs. refl)
apply_slots-written lib h t ((k, v) ∷ slots) rlp laws = elim (Bool-cases (v == 0)) [
  | inl zeroed ↦
      let (t', done, reads) = apply_slots-written lib h (h.delete t k) slots rlp laws in
      (
        t',
        rw zeroed done,
        λ hs. rw zeroed (reads hs ∙ ap (written lib slots hs) (laws.get-delete t k hs)),
      )
  | inr kept ↦
      let bytes = lib.encode (str (lib.int_bytes v)) in
      let (t', done, reads) = apply_slots-written lib h (h.set t k bytes) slots rlp laws in
      (
        t',
        rw (kept, u256_rlp-pos lib v kept) done,
        λ hs.
            rw kept
              (reads hs ∙ ap (written lib slots hs) (laws.get-set t k bytes hs (rlp.encode_ne _))),
      )
]
