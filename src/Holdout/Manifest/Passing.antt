-- ===== src/Holdout/Manifest/Passing.antt =====
-- The checks of cmd_verify pass on what cmd_seal wrote.
use lemma_xperiment.Common.{
  ℕ, ◌≡◌, refl, sym, subst, Bool, true, false, List, [], ◌∷◌, ◌++◌, Option, none, some, ◌==◌,
  ==_iff, eq_list, eq_list_refl, Outcome, ok, err, or_raise, type_error, >>=-elim, length, ◌-◌,
  arith, drop-append_self, length-append, Option-cases, inl, inr,
}
use lemma_xperiment.Blocks.{number, Value, Header, eq_header, eq_header_refl}
use lemma_xperiment.Holdout.Derive.{Bytes, Attempt, codes}
use lemma_xperiment.Holdout.Chain.{Net, at_block, agreed_header, number_of}
use lemma_xperiment.Holdout.State.{Signed, Seal, Host, eq_attempts, eq_option_ℕ}
use lemma_xperiment.Holdout.Manifest.{
  Check, Report, passes, number_matches, numbers_match, agreed_headers, header_checks,
  signature_checks, ends_with, message_of,
}

-- A later reading of the chain: whatever both endpoints said of a block before, they say again.
abbrev pub Extends : Net → Net → Type 0
Extends net net' =
    (n : ℕ) (h : Header)
    → agreed_header net (at_block n) ≡ ok h
    → agreed_header net' (at_block n) ≡ ok h

-- The header that endpoints give for a block has its number.
abbrev pub IsNumbered : Net → Type 0
IsNumbered net = (n : ℕ) (h : Header) → agreed_header net (at_block n) ≡ ok h → number_of h ≡ ok n

-- eth_keys recovers the signer from a signature that it made.
abbrev pub SignLaw : Host → Type 0
SignLaw host =
    (message signer signature : Bytes) (recover : Bytes → Bytes → Outcome Bytes)
    → host.sign message ≡ ok (signer, signature)
    → host.recover ≡ some recover
    → recover message signature ≡ ok signer

-- What `signed_of` gives: nothing, or what `sign` made of the message.
unfoldable pub SignedBy : Host → Bytes → Option Signed → Type 0
SignedBy host commitment none = Unit
SignedBy host commitment (some g) =
    (g.message ≡ message_of commitment) × (host.sign g.message ≡ ok (g.signer, g.signature))

pub eq_attempts_refl : (l : List Attempt) → eq_attempts l l ≡ true
eq_attempts_refl [] = refl
eq_attempts_refl (a ∷ l) =
    rw ((==_iff a.k a.k).1 refl, (==_iff a.start a.start).1 refl, option_refl a.rejected)
      (eq_attempts_refl l)
  where
    option_refl : (o : Option ℕ) → eq_option_ℕ o o ≡ true
    option_refl none = refl
    option_refl (some n) = (==_iff n n).1 refl

number_matches_own : (h : Header) (n : ℕ) → number_of h ≡ ok n → number_matches h n ≡ true
unfolding number_of
number_matches_own h n e = go (h number) e
  where
    go :
        (v : Value)
        → (elim v as (λ w. Outcome ℕ) [
          | Value.quantity k ↦ or_raise k type_error
          | Value.text _ ↦ err type_error
        ])
          ≡ ok n
        → (elim v as (λ w. Bool) [
          | Value.quantity (some k) ↦ k == n
          | Value.quantity none ↦ false
          | Value.text _ ↦ false
        ])
          ≡ true
    go (Value.quantity (some k)) e = (==_iff k n).1 (cc)
    go (Value.quantity none) e = cc
    go (Value.text t) e = cc

pub agreed_headers-numbers_match :
    (net : Net) (ns : List ℕ) (hs : List Header)
    → IsNumbered net
    → agreed_headers net ns ≡ ok hs
    → numbers_match hs ns ≡ true
unfolding agreed_headers numbers_match
agreed_headers-numbers_match net [] hs numbered done =
    let none_left : [] ≡ hs = cc done in subst (λ l. numbers_match l [] ≡ true) none_left refl
agreed_headers-numbers_match net (n ∷ ns) hs numbered done =
    >>=-elim (agreed_header net (at_block n)) _ done λ h read h1.
      >>=-elim (agreed_headers net ns) _ h1 λ rest listed h2.
        let made : h ∷ rest ≡ hs = cc h2 in
        subst (λ l. numbers_match l (n ∷ ns) ≡ true) made
          (rw
            (
              number_matches_own h n (numbered n h read),
              agreed_headers-numbers_match net ns rest numbered listed,
            )
            refl)

-- Checking again the headers that were read.
pub agreed_headers-header_checks :
    (net net' : Net) (ns : List ℕ) (hs : List Header)
    → IsNumbered net
    → Extends net net'
    → agreed_headers net ns ≡ ok hs
    → (report : Report) × (header_checks net' hs ≡ ok report) × (passes report ≡ true)
unfolding agreed_headers header_checks
agreed_headers-header_checks net net' [] hs numbered later done =
    let none_left : [] ≡ hs = cc done in
    subst (λ l. (report : Report) × (header_checks net' l ≡ ok report) × (passes report ≡ true))
      none_left ([], refl, refl)
agreed_headers-header_checks net net' (n ∷ ns) hs numbered later done =
    >>=-elim (agreed_header net (at_block n)) _ done λ h read h1.
      >>=-elim (agreed_headers net ns) _ h1 λ rest listed h2.
        let made : h ∷ rest ≡ hs = cc h2 in
        let (report, again, pass) =
          agreed_headers-header_checks net net' ns rest numbered later listed in
        subst (λ l. (report : Report) × (header_checks net' l ≡ ok report) × (passes report ≡ true))
          made
          (
            (Check.header_of n, eq_header h h) ∷ report,
            rw (numbered n h read, later n h read, again) refl,
            rw (eq_header_refl h, pass) refl,
          )

pub ends_with_own : (a b : Bytes) → ends_with (a ++ b) b ≡ true
ends_with_own a b =
    let size : length (a ++ b) - length b ≡ length a = omega (arith, length-append a b) in
    rw (size, drop-append_self a b) (eq_list_refl b)

by_signer :
    (host : Host) (commitment : Bytes) (g : Signed)
    → SignedBy host commitment (some g)
    → (g.message ≡ message_of commitment) × (host.sign g.message ≡ ok (g.signer, g.signature))
unfolding SignedBy
by_signer host commitment g signed = signed

named_end :
    (commitment : Bytes) (g : Signed)
    → g.message ≡ message_of commitment
    → ends_with g.message commitment ≡ true
unfolding message_of
named_end commitment g named =
    subst (λ t. ends_with t commitment ≡ true) (sym named)
      (ends_with_own (codes "lemma-holdout/1 commitment ") commitment)

pub signature_checks-pass :
    (host : Host) (s : Seal)
    → SignLaw host
    → SignedBy host s.commitment s.signed
    → (report : Report) × (signature_checks host s ≡ ok report) × (passes report ≡ true)
unfolding signature_checks
signature_checks-pass host s law signed = elim (Option-cases s.signed) [
  | inl unsigned ↦ ([], rw unsigned refl, refl)
  | inr (g, there) ↦ elim (Option-cases host.recover) [
    | inl missing ↦ ([], rw (there, missing) refl, refl)
    | inr (recover, found) ↦
        let (named, made) = by_signer host s.commitment g (rw there at signed) in
        (
          (Check.signature, eq_list g.signer g.signer)
              ∷ (Check.signed_message, ends_with g.message s.commitment)
              ∷ [],
          rw (there, found, law g.message g.signer g.signature recover made found) refl,
          rw (eq_list_refl g.signer, named_end s.commitment g named) refl,
        )
  ]
]
