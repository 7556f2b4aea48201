-- ===== src/Validation/Texts.antt =====
-- What the checks of src/utils/validation.rs accept, in terms of the characters of a text.
use kromer.Prelude.{
  ℕ, suc, ◌+◌, ◌≤◌, ◌≡◌, refl, ap, ◌∙◌, ◌↔◌, List, [], ◌∷◌, map, length, All, Bool, true, arith,
  String, codes,
}
use kromer.Validation.{is_alnum, address_re_v2, is_valid_kromer_address}
use kromer.Validation.Matching.{set, seq, between, char}
use kromer.Validation.Matching.Denotes.{join, Denotes, is_match-Denotes}

-- As many characters as a range allows, each in the set.
abbrev pub Consists : ℕ → ℕ → (ℕ → Bool) → List ℕ → Type 0
Consists m n p s = All (λ c. p c ≡ true) s × ((m ≤ length s) × (length s ≤ m + n))

single : ℕ → List ℕ
single c = c ∷ []

join-single : (s : List ℕ) → s ≡ join (map single s)
unfolding single
join-single [] = refl
join-single (c ∷ s) = ap (λ t. c ∷ t) (join-single s)

length-single : (s : List ℕ) → length (map single s) ≡ length s
length-single [] = refl
length-single (c ∷ s) = ap suc (length-single s)

module _ (p : ℕ → Bool) where
  All-single : (s : List ℕ) → All (λ c. p c ≡ true) s → All (Denotes (set p)) (map single s)
  unfolding single
  All-single [] h = tt
  All-single (c ∷ s) h = ((c, (refl, h.0)), All-single s h.1)

  All-join :
      (parts : List (List ℕ)) → All (Denotes (set p)) parts → All (λ c. p c ≡ true) (join parts)
  All-join [] h = tt
  All-join (part ∷ parts) ((c, (e, holds)), rest) = rw (e) (holds, All-join parts rest)

  length-join :
      (parts : List (List ℕ)) → All (Denotes (set p)) parts → length (join parts) ≡ length parts
  length-join [] h = refl
  length-join (part ∷ parts) ((c, (e, holds)), rest) = rw (e) (ap suc (length-join parts rest))

  pub Denotes-Consists : (m n : ℕ) (s : List ℕ) → Denotes (between m n (set p)) s ↔ Consists m n p s
  Denotes-Consists m n s = (
    λ (parts, (e, (good, range))). rw (e) (
      All-join parts good,
      (
        omega (arith, length-join parts good, range.0),
        omega (arith, length-join parts good, range.1),
      ),
    ),
    λ (good, range). (
      map single s,
      (
        join-single s,
        (
          All-single s good,
          (omega (arith, length-single s, range.0), omega (arith, length-single s, range.1)),
        ),
      ),
    ),
  )

begins :
    (s : List ℕ)
    → Denotes (seq (char b'k') (between 9 0 (set (λ c. is_alnum c)))) s
    → (l : List ℕ) × ((s ≡ b'k' ∷ l) × Consists 9 0 (λ c. is_alnum c) l)
begins s (u, (v, (split, ((c, (e, holds)), rest)))) =
    let same : c ≡ b'k' = ground (arith, holds) in
    (v, (split ∙ rw (e, same) refl, (Denotes-Consists (λ c. is_alnum c) 9 0 v).0 rest))

-- A text passes the check of an address exactly if it is a `k` followed by nine characters, each of them a
-- lower-case letter or a digit.
pub is_valid_kromer_address-Consists :
    (a : String)
    → (is_valid_kromer_address a ≡ true)
      ↔ ((l : List ℕ) × ((codes a ≡ b'k' ∷ l) × Consists 9 0 (λ c. is_alnum c) l))
unfolding is_valid_kromer_address address_re_v2
is_valid_kromer_address-Consists a =
    let (sound, complete) =
      is_match-Denotes (seq (char b'k') (between 9 0 (set (λ c. is_alnum c)))) (codes a) in
    (
      λ h. begins (codes a) (sound h),
      λ (l, (e, good)). complete (
        b'k' ∷ [],
        (l, (e, ((b'k', (refl, refl)), (Denotes-Consists (λ c. is_alnum c) 9 0 l).1 good))),
      ),
    )
