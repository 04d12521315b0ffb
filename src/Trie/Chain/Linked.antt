-- ===== src/Trie/Chain/Linked.antt =====
-- The chain that rebuild_chain makes: every ancestor references the node after it.
use lemma_xperiment.Common.{
  ℕ, zero, suc, ◌≡◌, ◌≢◌, sym, ◌∙◌, refl, subst, ap, List, [], ◌∷◌, Option, some, get_elem?, ok,
  index_error, value_error, arith, assertion_error, or_raise, >>=-eq-ok, or_raise-eq-ok, drop, ◌≤◌,
  ◌<◌, leb, length, Bool-cases, inl, inr,
}
use lemma_xperiment.Trie.Nibbles.{Bytes}
use lemma_xperiment.Trie.Walk.{Item, str, node, Items, nil, cons, count, item_at, Library}
use lemma_xperiment.Trie.Chain.{
  assign, assign_item, reference, relink, relink_all, rebuild_chain, walk_positions,
}

-- rlp decodes what it encoded.
abbrev pub RoundTrips : Library → Type 0
RoundTrips lib = (x : Item) → lib.decode (lib.encode x) ≡ some x

assign-item_at :
    (xs : Items) (i : ℕ) (ref : Item) {ys : Items}
    → assign xs i ref ≡ ok ys
    → (item_at ys i ≡ some ref)
      × (count ys ≡ count xs)
      × ((j : ℕ) → j ≢ i → item_at ys j ≡ item_at xs j)
unfolding assign
assign-item_at nil i ref h = cc
assign-item_at (cons x xs) zero ref {ys} h =
    let same : cons ref xs ≡ ys = cc in
    subst
      (λ (v : Items).
        (item_at v 0 ≡ some ref)
        × (count v ≡ suc (count xs))
        × ((j : ℕ) → j ≢ 0 → item_at v j ≡ item_at (cons x xs) j))
      same (refl, refl, others)
  where
    others : (j : ℕ) → j ≢ 0 → item_at (cons ref xs) j ≡ item_at (cons x xs) j
    others zero h = absurd (h refl)
    others (suc j) h = refl
assign-item_at (cons x xs) (suc i) ref {ys} h =
    let (zs, e, h1) = >>=-eq-ok (assign xs i ref) _ h in
    let (at, size, rest) = assign-item_at xs i ref e in
    let same : cons x zs ≡ ys = cc in
    subst
      (λ (v : Items).
        (item_at v (suc i) ≡ some ref)
        × (count v ≡ suc (count xs))
        × ((j : ℕ) → j ≢ suc i → item_at v j ≡ item_at (cons x xs) j))
      same (at, ap suc size, others zs rest)
  where
    others :
        (zs : Items)
        → ((j : ℕ) → j ≢ i → item_at zs j ≡ item_at xs j)
        → (j : ℕ) → j ≢ suc i
        → item_at (cons x zs) j ≡ item_at (cons x xs) j
    others zs rest zero h = refl
    others zs rest (suc j) h = rest j (λ e. h (ap suc e))

-- How a node stands in the one before it: by its hash if it has 32 bytes or more, else whole.
pub data Refers (lib : Library) (child : Bytes) (ref : Item) : Type 0 where
  hashed : 32 ≤ length child → ref ≡ str (lib.keccak child) → Refers lib child ref
  embedded : length child < 32 → lib.decode child ≡ some ref → Refers lib child ref

reference-Refers :
    (lib : Library) (child : Bytes) (ref : Item)
    → reference lib child ≡ ok ref
    → Refers lib child ref
unfolding reference
reference-Refers lib child ref h = elim (Bool-cases (leb 32 (length child))) [
  | inl long ↦
      let same : ok (str (lib.keccak child)) ≡ ok ref = rw long at h in
      Refers.hashed (ground arith) (cc)
  | inr short ↦
      let same : or_raise (lib.decode child) value_error ≡ ok ref = rw short at h in
      Refers.embedded (ground arith) (or_raise-eq-ok _ _ same)
]

-- `top` is a node that differs from `bytes` in one item at most, and that item references `child`.
pub record Relinked (lib : Library) (bytes child top : Bytes) : Type 0 where
  pub index : ℕ
  pub before : Items
  pub after : Items
  pub ref : Item
  pub was : lib.decode bytes ≡ some (node before)
  pub now : lib.decode top ≡ some (node after)
  pub refers : Refers lib child ref
  pub at : item_at after index ≡ some ref
  pub same_size : count after ≡ count before
  pub others : (j : ℕ) → j ≢ index → item_at after j ≡ item_at before j

relink-Relinked :
    (lib : Library) (bytes child top : Bytes) (position : Option ℕ)
    → RoundTrips lib
    → relink lib bytes position child ≡ ok top
    → Relinked lib bytes child top
unfolding relink assign_item
relink-Relinked lib bytes child top position round h =
    let (item, decoded, h1) = >>=-eq-ok (or_raise (lib.decode bytes) value_error) _ h in
    let (idx, _, h2) = >>=-eq-ok (or_raise position assertion_error) _ h1 in
    let (ref, refers, h3) = >>=-eq-ok (reference lib child) _ h2 in
    let (item', assigned, h4) = >>=-eq-ok (assign_item item idx ref) _ h3 in
    build item item' idx ref (or_raise-eq-ok _ _ decoded) refers assigned (cc)
  where
    build :
        (item item' : Item) (idx : ℕ) (ref : Item)
        → lib.decode bytes ≡ some item
        → reference lib child ≡ ok ref
        → assign_item item idx ref ≡ ok item'
        → top ≡ lib.encode item'
        → Relinked lib bytes child top
    build (str b) item' idx ref d r a e = absurd (cc)
    build (node xs) item' idx ref d r a e =
        let (ys, assigned, last) = >>=-eq-ok (assign xs idx ref) _ a in
        let (at, size, rest) = assign-item_at xs idx ref assigned in
        let made : item' ≡ node ys = cc in
        record {
          index = idx;
          before = xs;
          after = ys;
          ref = ref;
          was = d;
          now = ap lib.decode (e ∙ ap lib.encode made) ∙ round (node ys);
          refers = reference-Refers lib child ref r;
          at = at;
          same_size = size;
          others = rest;
        }

-- The rebuilt nodes against the given ones: the last is the new one, and every other is the given
-- node with one item changed to reference the rebuilt node behind it.
abbrev pub IsChain : Library → Bytes → List Bytes → List Bytes → Type 0
IsChain lib new_last (old ∷ []) (new ∷ []) = new ≡ new_last
IsChain lib new_last (old ∷ old' ∷ olds) (new ∷ new' ∷ news) =
    Relinked lib old new' new × IsChain lib new_last (old' ∷ olds) (new' ∷ news)
IsChain lib new_last _ _ = ⊥

HeadIs : Bytes → List Bytes → Type 0
HeadIs top [] = ⊥
HeadIs top (b ∷ bs) = b ≡ top

relink_all-IsChain :
    (lib : Library) (proof : List Bytes) (positions : List (Option ℕ)) (new_last : Bytes)
    (built : List Bytes) (top : Bytes)
    → RoundTrips lib
    → relink_all lib proof positions new_last ≡ ok (built, top)
    → IsChain lib new_last proof built × HeadIs top built
unfolding relink_all HeadIs
relink_all-IsChain lib [] positions new_last built top round h = cc
relink_all-IsChain lib (old ∷ []) positions new_last [] top round h = cc
relink_all-IsChain lib (old ∷ []) positions new_last (b ∷ []) top round h = ground arith
relink_all-IsChain lib (old ∷ []) positions new_last (b ∷ b' ∷ bs) top round h = cc
relink_all-IsChain lib (old ∷ old' ∷ olds) positions new_last built top round h =
    let ((lower, child), e, h1) =
      >>=-eq-ok (relink_all lib (old' ∷ olds) (drop 1 positions) new_last) _ h in
    let (position, _, h2) = >>=-eq-ok (or_raise (get_elem? positions 0) index_error) _ h1 in
    let (top', linked, h3) = >>=-eq-ok (relink lib old position child) _ h2 in
    let (below, at_top) =
      relink_all-IsChain lib (old' ∷ olds) (drop 1 positions) new_last lower child round e in
    glue lower built child top' below at_top
      (relink-Relinked lib old child top' position round linked) (cc) (cc)
  where
    glue :
        (lower built : List Bytes) (child top' : Bytes)
        → IsChain lib new_last (old' ∷ olds) lower
        → HeadIs child lower
        → Relinked lib old child top'
        → built ≡ top' ∷ lower
        → top' ≡ top
        → IsChain lib new_last (old ∷ old' ∷ olds) built × HeadIs top built
    glue [] built child top' below at_top linked made same = absurd at_top
    glue (b ∷ bs) built child top' below at_top linked made same =
        subst (λ l. IsChain lib new_last (old ∷ old' ∷ olds) l × HeadIs top l) (sym made)
          ((subst (λ c. Relinked lib old c top') (sym at_top) linked, below), same)

-- Where rlp decodes what it encoded, a rebuilt chain has the new last node, every node before it
-- differs from the given one in one item at most, which is the hash of the rebuilt node behind it
-- where that has 32 bytes or more, and otherwise that node itself, and the root is the hash of the
-- first node.
pub rebuild_chain-IsChain :
    (lib : Library) (proof : List Bytes) (key new_last : Bytes) (built : List Bytes) (root : Bytes)
    → RoundTrips lib
    → rebuild_chain lib proof key new_last ≡ ok (built, root)
    → IsChain lib new_last proof built
      × ((top : Bytes) × (get_elem? built 0 ≡ some top) × (root ≡ lib.keccak top))
unfolding rebuild_chain HeadIs
rebuild_chain-IsChain lib proof key new_last built root round h =
    let (positions, _, h1) = >>=-eq-ok (walk_positions lib proof key) _ h in
    let ((built', top), e, h2) = >>=-eq-ok (relink_all lib proof positions new_last) _ h1 in
    let (chain, at_top) = relink_all-IsChain lib proof positions new_last built' top round e in
    let same : built' ≡ built = cc in
    (subst (IsChain lib new_last proof) same chain, (top, first built' same at_top, cc))
  where
    first : {top : Bytes} (l : List Bytes) → l ≡ built → HeadIs top l → get_elem? built 0 ≡ some top
    first [] e h = absurd h
    first (b ∷ bs) e h = ap (λ l. get_elem? l 0) (sym e) ∙ ap some h
