-- ===== src/Validation/Matching/Denotes.antt =====
-- What a regular expression denotes, said without the matcher, and that the matcher decides it.
use mathlib.Core.Path.{subst}
use kromer.Prelude.{
  ℕ, zero, suc, ◌+◌, ◌≤◌, ◌≡◌, refl, sym, ap, ◌∙◌, ◌⊎◌, inl, inr, ◌↔◌, List, [], ◌∷◌, ◌++◌, length,
  All, Bool, true, false, ◌&&◌, ◌||◌, arith, if◌then◌else◌, Bool-cases,
}
use kromer.Validation.Matching.{
  Regex, never, epsilon, set, seq, alt, star, between, nullable, derive, is_match,
}

-- The parts one after another.
abbrev pub join : List (List ℕ) → List ℕ
join [] = []
join (s ∷ parts) = s ++ join parts

-- A repetition is a text in parts that each match.
abbrev pub Denotes : Regex → List ℕ → Type 0
Denotes never s = ⊥
Denotes epsilon s = s ≡ []
Denotes (set p) s = (c : ℕ) × ((s ≡ c ∷ []) × (p c ≡ true))
Denotes (seq r q) s = (u : List ℕ) × ((v : List ℕ) × ((s ≡ u ++ v) × (Denotes r u × Denotes q v)))
Denotes (alt r q) s = Denotes r s ⊎ Denotes q s
Denotes (star r) s = (parts : List (List ℕ)) × ((s ≡ join parts) × All (Denotes r) parts)
Denotes (between m n r) s =
    (parts : List (List ℕ)) × ((s ≡ join parts)
      × (All (Denotes r) parts × ((m ≤ length parts) × (length parts ≤ m + n))))

-- The first part that is not empty, out of the others.
module _ (P : List ℕ → Type 0) (c : ℕ) where
  abbrev Extracted : List (List ℕ) → List ℕ → Type 0
  Extracted parts s =
      (u : List ℕ) × ((rest : List (List ℕ)) × ((P (c ∷ u) × All P rest)
          × ((s ≡ u ++ join rest) × (length parts ≡ suc (length rest)))))

  extract :
      (parts : List (List ℕ)) (s : List ℕ) → c ∷ s ≡ join parts → All P parts → Extracted parts s
  extract [] s e h = absurd (cc)
  extract ([] ∷ parts) s e h =
      let (u, (rest, (good, (split, count)))) = extract parts s e h.1 in
      (u, ([] ∷ rest, ((good.0, (h.0, good.1)), (split, omega (arith, count)))))
  extract ((d ∷ u) ∷ parts) s e h =
      let same : c ≡ d = cc in
      let tail : s ≡ u ++ join parts = cc in
      (u, (parts, ((subst (λ b. P (b ∷ u)) (sym same) h.0, h.1), (tail, refl))))

all_empty :
    (P : List ℕ → Type 0) (part : List ℕ) (parts : List (List ℕ))
    → [] ≡ part ++ join parts
    → P part
    → P []
all_empty P [] parts e h = h
all_empty P (c ∷ s) parts e h = absurd (cc)

copies : ℕ → List (List ℕ)
copies zero = []
copies (suc m) = [] ∷ copies m

join-copies : (m : ℕ) → [] ≡ join (copies m)
unfolding copies
join-copies zero = refl
join-copies (suc m) = join-copies m

length-copies : (m : ℕ) → length (copies m) ≡ m
unfolding copies
length-copies zero = refl
length-copies (suc m) = ap suc (length-copies m)

All-copies : (P : List ℕ → Type 0) (m : ℕ) → P [] → All P (copies m)
unfolding copies
All-copies P zero h = tt
All-copies P (suc m) h = (h, All-copies P m h)

and_both : (a b : Bool) → a && b ≡ true → (a ≡ true) × (b ≡ true)
and_both a b h = ground (arith, h)

or_either : (a b : Bool) → a || b ≡ true → (a ≡ true) ⊎ (b ≡ true)
or_either true b h = inl refl
or_either false b h = inr h

nullable-Denotes : (r : Regex) → nullable r ≡ true → Denotes r []
unfolding nullable
nullable-Denotes never h = absurd (cc)
nullable-Denotes epsilon h = refl
nullable-Denotes (set p) h = absurd (cc)
nullable-Denotes (seq r q) h =
    let both = and_both (nullable r) (nullable q) h in
    ([], ([], (refl, (nullable-Denotes r both.0, nullable-Denotes q both.1))))
nullable-Denotes (alt r q) h = elim (or_either (nullable r) (nullable q) h) [
  | inl a ↦ inl (nullable-Denotes r a)
  | inr b ↦ inr (nullable-Denotes q b)
]
nullable-Denotes (star r) h = ([], (refl, tt))
nullable-Denotes (between zero n r) h = ([], (refl, (tt, (omega arith, omega arith))))
nullable-Denotes (between (suc m) n r) h =
    let count = length-copies (suc m) in
    (
      copies (suc m),
      (
        join-copies (suc m),
        (
          All-copies (Denotes r) (suc m) (nullable-Denotes r h),
          (omega (arith, count), omega (arith, count)),
        ),
      ),
    )

no_text : (u v : List ℕ) → [] ≡ u ++ v → (u ≡ []) × (v ≡ [])
no_text [] v h = (refl, sym h)
no_text (c ∷ u) v h = absurd (cc)

Denotes-nullable : (r : Regex) → Denotes r [] → nullable r ≡ true
unfolding nullable
Denotes-nullable never h = elim h [ ]
Denotes-nullable epsilon h = refl
Denotes-nullable (set p) (c, (e, h)) = absurd (cc)
Denotes-nullable (seq r q) (u, (v, (split, (hr, hq)))) =
    let empty = no_text u v split in
    let left = Denotes-nullable r (subst (Denotes r) empty.0 hr) in
    let right = Denotes-nullable q (subst (Denotes q) empty.1 hq) in ground (arith, left, right)
Denotes-nullable (alt r q) (inl h) = rw (Denotes-nullable r h) refl
Denotes-nullable (alt r q) (inr h) = let right = Denotes-nullable q h in ground (arith, right)
Denotes-nullable (star r) h = refl
Denotes-nullable (between zero n r) h = refl
Denotes-nullable (between (suc m) n r) ([], (e, (h, (few, many)))) = absurd (omega (arith, few))
Denotes-nullable (between (suc m) n r) (part ∷ parts, (e, (h, range))) =
    Denotes-nullable r (all_empty (Denotes r) part parts e h.0)

-- A part that is not empty, in front of the parts that follow it.
longer :
    (P : List ℕ → Type 0) (c : ℕ) (u v s : List ℕ) (parts : List (List ℕ))
    → s ≡ u ++ v
    → v ≡ join parts
    → c ∷ s ≡ join ((c ∷ u) ∷ parts)
longer P c u v s parts split e = rw (split, e) refl

abbrev Split : Regex → Regex → Regex → Regex → Bool → List ℕ → Type 0
Split r r' q q' b s = Denotes (if b then alt (seq r' q) q' else seq r' q) s

prepend :
    (c : ℕ) (r r' q : Regex) (s : List ℕ)
    → ((u : List ℕ) → Denotes r' u → Denotes r (c ∷ u))
    → Denotes (seq r' q) s
    → Denotes (seq r q) (c ∷ s)
prepend c r r' q s step (u, (v, (split, (hr, hq)))) =
    (c ∷ u, (v, (ap (λ t. c ∷ t) split, (step u hr, hq))))

derive-Denotes : (c : ℕ) (r : Regex) (s : List ℕ) → Denotes (derive c r) s → Denotes r (c ∷ s)
unfolding derive
derive-Denotes c never s h = elim h [ ]
derive-Denotes c epsilon s h = elim h [ ]
derive-Denotes c (set p) s h = elim (Bool-cases (p c)) [
  | inl holds ↦
      (c, (ap (λ t. c ∷ t) (subst (λ b. Denotes (if b then epsilon else never) s) holds h), holds))
  | inr fails ↦ elim (subst (λ b. Denotes (if b then epsilon else never) s) fails h) [ ]
]
derive-Denotes c (seq r q) s h =
    let left = prepend c r (derive c r) q s (derive-Denotes c r) in
    elim (Bool-cases (nullable r)) [
      | inl holds ↦ elim (subst (λ b. Split r (derive c r) q (derive c q) b s) holds h) [
        | inl first ↦ left first
        | inr second ↦
            ([], (c ∷ s, (refl, (nullable-Denotes r holds, derive-Denotes c q s second))))
      ]
      | inr fails ↦ left (subst (λ b. Split r (derive c r) q (derive c q) b s) fails h)
    ]
derive-Denotes c (alt r q) s (inl h) = inl (derive-Denotes c r s h)
derive-Denotes c (alt r q) s (inr h) = inr (derive-Denotes c q s h)
derive-Denotes c (star r) s (u, (v, (split, (hr, (parts, (e, good)))))) =
    ((c ∷ u) ∷ parts, (longer (Denotes r) c u v s parts split e, (derive-Denotes c r u hr, good)))
derive-Denotes c (between zero zero r) s h = elim h [ ]
derive-Denotes c (between zero (suc n) r) s (u, (v, (split, (hr, (parts, (e, (good, range))))))) = (
  (c ∷ u) ∷ parts,
  (
    longer (Denotes r) c u v s parts split e,
    ((derive-Denotes c r u hr, good), (omega arith, omega (arith, range.1))),
  ),
)
derive-Denotes c (between (suc m) n r) s (u, (v, (split, (hr, (parts, (e, (good, range))))))) = (
  (c ∷ u) ∷ parts,
  (
    longer (Denotes r) c u v s parts split e,
    ((derive-Denotes c r u hr, good), (omega (arith, range.0), omega (arith, range.1))),
  ),
)

Denotes-derive : (c : ℕ) (r : Regex) (s : List ℕ) → Denotes r (c ∷ s) → Denotes (derive c r) s
unfolding derive
Denotes-derive c never s h = elim h [ ]
Denotes-derive c epsilon s h = absurd (cc)
Denotes-derive c (set p) s (d, (e, h)) =
    let same : c ≡ d = cc in
    let rest : s ≡ [] = cc in
    subst (λ b. Denotes (if b then epsilon else never) s) (sym (ap p same ∙ h)) rest
Denotes-derive c (seq r q) s ([], (v, (split, (hr, hq)))) =
    let holds = Denotes-nullable r hr in
    subst (λ b. Split r (derive c r) q (derive c q) b s) (sym holds)
      (inr (Denotes-derive c q s (subst (Denotes q) (sym split) hq)))
Denotes-derive c (seq r q) s (d ∷ u, (v, (split, (hr, hq)))) =
    let same : c ≡ d = cc in
    let rest : s ≡ u ++ v = cc in
    let first : Denotes (seq (derive c r) q) s =
      (u, (v, (rest, (Denotes-derive c r u (subst (λ b. Denotes r (b ∷ u)) (sym same) hr), hq)))) in
    elim (Bool-cases (nullable r)) [
      | inl holds ↦ subst (λ b. Split r (derive c r) q (derive c q) b s) (sym holds) (inl first)
      | inr fails ↦ subst (λ b. Split r (derive c r) q (derive c q) b s) (sym fails) first
    ]
Denotes-derive c (alt r q) s (inl h) = inl (Denotes-derive c r s h)
Denotes-derive c (alt r q) s (inr h) = inr (Denotes-derive c q s h)
Denotes-derive c (star r) s (parts, (e, good)) =
    let (u, (rest, (both, (split, count)))) = extract (Denotes r) c parts s e good in
    (u, (join rest, (split, (Denotes-derive c r u both.0, (rest, (refl, both.1))))))
Denotes-derive c (between zero zero r) s (parts, (e, (good, range))) =
    let (u, (rest, (both, (split, count)))) = extract (Denotes r) c parts s e good in
    absurd (omega (arith, count, range.1))
Denotes-derive c (between zero (suc n) r) s (parts, (e, (good, range))) =
    let (u, (rest, (both, (split, count)))) = extract (Denotes r) c parts s e good in
    (
      u,
      (
        join rest,
        (
          split,
          (
            Denotes-derive c r u both.0,
            (rest, (refl, (both.1, (omega arith, omega (arith, count, range.1))))),
          ),
        ),
      ),
    )
Denotes-derive c (between (suc m) n r) s (parts, (e, (good, range))) =
    let (u, (rest, (both, (split, count)))) = extract (Denotes r) c parts s e good in
    (
      u,
      (
        join rest,
        (
          split,
          (
            Denotes-derive c r u both.0,
            (
              rest,
              (refl, (both.1, (omega (arith, count, range.0), omega (arith, count, range.1)))),
            ),
          ),
        ),
      ),
    )

-- Whether a regular expression matches a text, by derivatives, is whether it denotes it: a sequence is a
-- text in two parts, a repetition a text in so many parts that each match.
pub is_match-Denotes : (r : Regex) (s : List ℕ) → (is_match r s ≡ true) ↔ Denotes r s
unfolding is_match
is_match-Denotes r [] = (nullable-Denotes r, Denotes-nullable r)
is_match-Denotes r (c ∷ s) =
    let (sound, complete) = is_match-Denotes (derive c r) s in
    (λ h. derive-Denotes c r s (sound h), λ h. complete (Denotes-derive c r s h))
