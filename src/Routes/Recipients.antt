-- ===== src/Routes/Recipients.antt =====
-- The two patterns of a recipient, that of src/routes/krist/transactions.rs, which decides whether it is a
-- name, and that of src/database/transaction.rs, which takes it apart.
use mathlib.Core.Path.{subst}
use Prim.Native.Char.{code}
use Prim.Native.String.{count, ◌++◌ as ◌++ˢ◌}
use text.Mathlib.TextEquality.{Char-path}
use text.Mathlib.TextLemmas.{nil-append, cons-append, append_assoc, length-nil, length-cons}
use kromer.Prelude.{
  ℕ, suc, ◌≡◌, refl, sym, ap, ◌∙◌, ◌⊎◌, inl, inr, String, codes, none, some, List, [], ◌∷◌, ◌++◌,
  length, All, Bool, true, arith,
}
use kromer.Database.Transactions.NameData.{parse}
use kromer.Database.Transactions.Parsing.{every, Group, parse-metaname, parse-name}
use kromer.Routes.Transactions.{is_name}
use kromer.Validation.{is_alnum, is_name_char, name_meta_re}
use kromer.Validation.Matching.{Regex, set, seq, alt, epsilon, char, between}
use kromer.Validation.Matching.Denotes.{Denotes, is_match-Denotes}
use kromer.Validation.Texts.{Consists, Denotes-Consists}

-- A text whose code points come in two parts comes in two parts itself.
abbrev Halves : String → List ℕ → List ℕ → Type 0
Halves s u v = (a : String) × ((b : String) × ((s ≡ a ++ˢ b) × ((codes a ≡ u) × (codes b ≡ v))))

halves : (s : String) (u v : List ℕ) → codes s ≡ u ++ v → Halves s u v
halves s [] v e = ("", (s, (sym (nil-append s), (refl, e))))
halves String.[] (c ∷ u) v e = absurd (cc)
halves (String.◌∷◌ d s) (c ∷ u) v e =
    let same : code d ≡ c = cc in
    let rest : codes s ≡ u ++ v = cc in
    let (a, (b, (split, (left, right)))) = halves s u v rest in
    (
      String.◌∷◌ d a,
      (
        b,
        (ap (λ t. String.◌∷◌ d t) split ∙ sym (cons-append d a b), (rw (same, left) refl, right)),
      ),
    )

codes_injective : (s t : String) → codes s ≡ codes t → s ≡ t
codes_injective String.[] String.[] e = refl
codes_injective String.[] (String.◌∷◌ d t) e = absurd (cc)
codes_injective (String.◌∷◌ c s) String.[] e = absurd (cc)
codes_injective (String.◌∷◌ c s) (String.◌∷◌ d t) e =
    let same : code c ≡ code d = cc in
    let rest : codes s ≡ codes t = cc in
    rw (codes_injective s t rest) (ap (λ k. String.◌∷◌ k t) (Char-path c d same))

every-codes : (p : ℕ → Bool) (s : String) → All (λ c. p c ≡ true) (codes s) → every p s ≡ true
unfolding every
every-codes p String.[] h = refl
every-codes p (String.◌∷◌ c s) h = rw h.0 (every-codes p s h.1)

count-codes : (s : String) → count s ≡ length (codes s)
count-codes String.[] = length-nil
count-codes (String.◌∷◌ c s) = length-cons c s ∙ ap suc (count-codes s)

Consists-Group :
    (p : ℕ → Bool) (n : ℕ) (s : String) (l : List ℕ)
    → codes s ≡ l
    → Consists 1 n p l
    → Group p (suc n) s
Consists-Group p n s l e (good, range) =
    let size = count-codes s ∙ ap length e in
    record {
      passes = every-codes p s (subst (λ m. All (λ c. p c ≡ true) m) (sym e) good);
      not_empty = omega (arith, size, range.0);
      room = omega (arith, size, range.1);
    }

char-is : (c : ℕ) (s : List ℕ) → Denotes (char c) s → s ≡ c ∷ []
char-is c s (d, (e, h)) = let same : d ≡ c = ground (arith, h) in e ∙ ap (λ k. k ∷ []) same

abbrev dot_kro : Regex
dot_kro = seq (char b'.') (seq (char b'k') (seq (char b'r') (char b'o')))

suffix-is : (s : List ℕ) → Denotes dot_kro s → s ≡ codes ".kro"
suffix-is s (a, (r, (e, (ha, (b, (r', (e', (hb, (c, (d, (e'', (hc, hd)))))))))))) =
    rw (e, char-is b'.' a ha, e', char-is b'k' b hb, e'', char-is b'r' c hc, char-is b'o' d hd) refl

-- A text that is a name of 1 to 64 allowed characters with the suffix, and before it, if anything, a metaname of
-- 1 to 32 and an at sign; each with what it is taken apart into.
abbrev pub Parts : String → Type 0
Parts to =
    (n : String) × (Group is_alnum 64 n
      × (((to ≡ n ++ˢ ".kro") × (parse to ≡ record { name = some n; metaname = none }))
          ⊎ ((m : String) × (Group is_name_char 32 m
                × ((to ≡ m ++ˢ "@" ++ˢ n ++ˢ ".kro")
                    × (parse to ≡ record { name = some n; metaname = some m }))))))

-- The name and the suffix.
abbrev Suffixed : String → Type 0
Suffixed s = (n : String) × (Group is_alnum 64 n × (s ≡ n ++ˢ ".kro"))

suffixed :
    (s : String)
    → Denotes (seq (between 1 63 (set (λ c. is_alnum c))) dot_kro) (codes s)
    → Suffixed s
suffixed s (u, (v, (split, (hu, hv)))) =
    let (a, (b, (e, (left, right)))) = halves s u v split in
    let good = (Denotes-Consists (λ c. is_alnum c) 1 63 u).0 hu in
    let kro : b ≡ ".kro" = codes_injective b ".kro" (right ∙ suffix-is v hv) in
    (a, (Consists-Group (λ c. is_alnum c) 63 a u left good, e ∙ ap (λ k. a ++ˢ k) kro))

abbrev metaname_re : Regex
metaname_re = seq (between 1 31 (set (λ c. is_name_char c))) (char b'@')

abbrev Prefixed : String → String → Type 0
Prefixed s a = (m : String) × (Group is_name_char 32 m × (a ≡ m ++ˢ "@"))

prefixed : (s a : String) (u : List ℕ) → codes a ≡ u → Denotes metaname_re u → Prefixed s a
prefixed s a u e (p, (q, (split, (hp, hq)))) =
    let (m, (w, (e', (left, right)))) = halves a p q (e ∙ split) in
    let good = (Denotes-Consists (λ c. is_name_char c) 1 31 p).0 hp in
    let at : w ≡ "@" = codes_injective w "@" (right ∙ char-is b'@' q hq) in
    (m, (Consists-Group (λ c. is_name_char c) 31 m p left good, e' ∙ ap (λ k. m ++ˢ k) at))

recipient_taken :
    (to a b : String) (u : List ℕ)
    → to ≡ a ++ˢ b
    → codes a ≡ u
    → Denotes (alt metaname_re epsilon) u
    → Suffixed b
    → Parts to
recipient_taken to a b u e left (inl h) (n, (good, kro)) =
    let (m, (good', at)) = prefixed to a u left h in
    let whole : to ≡ m ++ˢ "@" ++ˢ n ++ˢ ".kro" =
      e
      ∙ ap (λ k. k ++ˢ b) at
      ∙ ap (λ k. (m ++ˢ "@") ++ˢ k) kro
      ∙ append_assoc m "@" (n ++ˢ ".kro") in
    (n, (good, inr (m, (good', (whole, ap parse whole ∙ parse-metaname m n good' good)))))
recipient_taken to a b u e left (inr h) (n, (good, kro)) =
    let none_before : a ≡ "" = codes_injective a "" (left ∙ h) in
    let whole : to ≡ n ++ˢ ".kro" = e ∙ rw none_before (nil-append b ∙ kro) in
    (n, (good, inl (whole, ap parse whole ∙ parse-name n good)))

-- A recipient that a payment takes for a name is a name of 1 to 64 lower-case letters and digits followed by
-- `.kro`, and before it, if anything, a metaname of 1 to 32 allowed characters and an at sign; it is taken apart
-- into just these, so the name that is looked up and the names that are recorded are the ones that were written.
pub is_name-Parts : (to : String) → is_name to ≡ true → Parts to
unfolding is_name name_meta_re
is_name-Parts to h =
    let (u, (v, (split, (hu, hv)))) = (is_match-Denotes name_meta_re (codes to)).0 h in
    let (a, (b, (e, (left, right)))) = halves to u v split in
    recipient_taken to a b u e left hu (
      suffixed b
        (subst (Denotes (seq (between 1 63 (set (λ c. is_alnum c))) dot_kro)) (sym right) hv))
