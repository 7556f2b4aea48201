-- ===== src/Validation/Matching.antt =====
-- Regular expressions over code points: what they denote, and a matcher by derivatives.
pub mod Denotes
use kromer.Prelude.{ℕ, zero, suc, List, [], ◌∷◌, Bool, true, false, ◌&&◌, ◌||◌, ◌==◌, if◌then◌else◌}

-- `between m n r` is `r{m,m+n}`: `m` times, and up to `n` times more.
pub data Regex : Type 0 where
  never epsilon : Regex
  set : (ℕ → Bool) → Regex
  seq alt : Regex → Regex → Regex
  star : Regex → Regex
  between : ℕ → ℕ → Regex → Regex

abbrev pub char : ℕ → Regex
char c = set (λ d. d == c)

abbrev pub maybe : Regex → Regex
maybe r = alt r epsilon

unfoldable pub nullable : Regex → Bool
nullable never = false
nullable epsilon = true
nullable (set _) = false
nullable (seq r s) = nullable r && nullable s
nullable (alt r s) = nullable r || nullable s
nullable (star _) = true
nullable (between zero _ r) = true
nullable (between (suc _) _ r) = nullable r

-- What is left to match after the code point `c`.
unfoldable pub derive : ℕ → Regex → Regex
unfolding nullable
derive c never = never
derive c epsilon = never
derive c (set p) = if p c then epsilon else never
derive c (seq r s) =
    let first = seq (derive c r) s in
    let second = derive c s in if nullable r then alt first second else first
derive c (alt r s) = alt (derive c r) (derive c s)
derive c (star r) = seq (derive c r) (star r)
derive c (between zero zero r) = never
derive c (between zero (suc n) r) = seq (derive c r) (between zero n r)
derive c (between (suc m) n r) = seq (derive c r) (between m n r)

unfoldable pub is_match : Regex → List ℕ → Bool
unfolding derive nullable
is_match r [] = nullable r
is_match r (c ∷ s) = is_match (derive c r) s
