-- ===== src/Database/Transactions/Parsing.antt =====
-- `TransactionNameData::parse` of src/database/transaction.rs on texts that are put together from a
-- metaname and a name, and the texts of `TransactionType`.
use Prim.Native.Char.{code, Char}
use Prim.Native.String.{count, ◌++◌}
use kromer.Prelude.{
  ℕ, ◌≤◌, String, ◌≡◌, refl, ap, ◌∙◌, Option, none, some, Bool, true, false, not, ◌&&◌, ◌==◌, leb,
  str_eq, if◌then◌else◌, arith, Bool-cases, inl, inr, eq_iff,
}
use text.Mathlib.TextLemmas.{nil-append, cons-append}
use kromer.Database.{
  TransactionType, unknown, mined, name_purchase, name_a_record, name_transfer, transfer,
}
use kromer.Database.Transactions.NameData.{
  transaction_type_of_string, string_of_transaction_type, span, after_kro, match_name, after_at,
  match_meta, parse, captures, with_meta, with_name, meta_of_span,
}
use kromer.Validation.{is_name_char, is_alnum, is_lower, is_digit, strip_name_suffix}

-- Every character passes the test.
unfoldable pub every : (ℕ → Bool) → String → Bool
every p String.[] = true
every p (String.◌∷◌ c s) = p (code c) && every p s

-- The first character, if there is one, fails the test.
unfoldable pub stops : (ℕ → Bool) → String → Bool
stops p String.[] = true
stops p (String.◌∷◌ c s) = not (p (code c))

span-stops : (p : ℕ → Bool) (t : String) → stops p t ≡ true → span p t ≡ ("", t)
unfolding span stops
span-stops p String.[] h = refl
span-stops p (String.◌∷◌ c t) h = elim (Bool-cases (p (code c))) [
  | inl passes ↦ let f : not true ≡ true = rw passes at h in cc
  | inr fails ↦ rw fails refl
]

span-every :
    (p : ℕ → Bool) (s t : String) → every p s ≡ true → stops p t ≡ true → span p (s ++ t) ≡ (s, t)
unfolding span every
span-every p String.[] t h k = rw (nil-append t) (span-stops p t k)
span-every p (String.◌∷◌ d s) t h k = elim (Bool-cases (p (code d))) [
  | inl passes ↦ rw (cons-append d s t, passes, span-every p s t (rw passes at h) k) refl
  | inr fails ↦ let f : false ≡ true = rw fails at h in cc
]

abbrev at_sign : Char
at_sign = "@"

at_append : (t : String) → "@" ++ t ≡ String.◌∷◌ at_sign t
at_append t = cons-append at_sign "" t ∙ ap (λ r. String.◌∷◌ at_sign r) (nil-append t)

parse-captures : (s : String) → parse s ≡ captures s
unfolding parse captures with_meta meta_of_span match_meta match_name span after_at
parse-captures s = elim (Bool-cases (str_eq s "")) [
  | inl empty ↦ let e : s ≡ "" = (eq_iff s "").0 empty in rw e refl
  | inr full ↦ rw full refl
]

every-is_name_char : (s : String) → every is_alnum s ≡ true → every is_name_char s ≡ true
unfolding every is_name_char
every-is_name_char String.[] h = refl
every-is_name_char (String.◌∷◌ c s) h = elim (Bool-cases (is_alnum (code c))) [
  | inl passes ↦ rw passes (every-is_name_char s (rw passes at h))
  | inr fails ↦ let f : false ≡ true = rw fails at h in cc
]

-- A text that the pattern's group takes whole.
pub record Group (test : ℕ → Bool) (most : ℕ) (s : String) : Type 0 where
  pub passes : every test s ≡ true
  pub not_empty : 1 ≤ count s
  pub room : count s ≤ most

in_bounds :
    (test : ℕ → Bool) (most : ℕ) (s : String)
    → Group test most s
    → (leb 1 (count s) ≡ true) × (leb (count s) most ≡ true)
in_bounds test most s g = (ground (arith, g.not_empty), ground (arith, g.room))

match_name-append : (n : String) → Group is_alnum 64 n → match_name (n ++ ".kro") ≡ some n
unfolding match_name after_kro stops
match_name-append n g =
    let b = in_bounds is_alnum 64 n g in
    rw (span-every is_alnum n ".kro" g.passes refl, b.0, b.1) refl

match_meta-append :
    (m t : String) → Group is_name_char 32 m → match_meta (m ++ "@" ++ t) ≡ some (m, t)
unfolding match_meta meta_of_span stops after_at
match_meta-append m t g =
    let b = in_bounds is_name_char 32 m g in
    rw
      (span-every is_name_char m ("@" ++ t) g.passes (rw (at_append t) refl), b.0, b.1, at_append t)
      refl

match_meta-without : (n : String) → Group is_alnum 64 n → match_meta (n ++ ".kro") ≡ none
unfolding match_meta meta_of_span stops after_at
match_meta-without n g =
    rw (span-every is_name_char n ".kro" (every-is_name_char n g.passes) refl)
      (either (leb 1 (count n) && leb (count n) 32))
  where
    either : (b : Bool) → ◌≡◌ {A = Option (String × String)} (if b then none else none) none
    either true = refl
    either false = refl

-- A recipient that is put together from a metaname of 1 to 32 characters and a name of 1 to 64, both
-- of the characters that the pattern allows, is taken apart into these two.
pub parse-metaname :
    (m n : String)
    → Group is_name_char 32 m
    → Group is_alnum 64 n
    → parse (m ++ "@" ++ n ++ ".kro") ≡ record { name = some n; metaname = some m }
unfolding captures with_meta with_name
parse-metaname m n hm hn =
    parse-captures (m ++ "@" ++ n ++ ".kro")
    ∙ rw (match_meta-append m (n ++ ".kro") hm, match_name-append n hn) refl

-- A name of 1 to 64 allowed characters followed by the suffix is taken for that name, without a
-- metaname.
pub parse-name :
    (n : String)
    → Group is_alnum 64 n
    → parse (n ++ ".kro") ≡ record { name = some n; metaname = none }
unfolding captures with_meta with_name
parse-name n hn =
    parse-captures (n ++ ".kro") ∙ rw (match_meta-without n hn, match_name-append n hn) refl

-- The text of a transaction type reads back as that type.
pub transaction_type_of_string-string_of_transaction_type :
    (t : TransactionType) → transaction_type_of_string (string_of_transaction_type t) ≡ t
unfolding transaction_type_of_string string_of_transaction_type
transaction_type_of_string-string_of_transaction_type unknown = refl
transaction_type_of_string-string_of_transaction_type mined = refl
transaction_type_of_string-string_of_transaction_type name_purchase = refl
transaction_type_of_string-string_of_transaction_type name_a_record = refl
transaction_type_of_string-string_of_transaction_type name_transfer = refl
transaction_type_of_string-string_of_transaction_type transfer = refl

strip-cons :
    (a : Char) (s : String)
    → (code a == b'.') ≡ false
    → strip_name_suffix (String.◌∷◌ a s) ≡ String.◌∷◌ a (strip_name_suffix s)
unfolding strip_name_suffix
strip-cons a String.[] h = refl
strip-cons a (String.◌∷◌ b String.[]) h = refl
strip-cons a (String.◌∷◌ b (String.◌∷◌ c String.[])) h = refl
strip-cons a (String.◌∷◌ b (String.◌∷◌ c (String.◌∷◌ d s))) h = rw h refl

strip-suffix : strip_name_suffix ".kro" ≡ ""
unfolding strip_name_suffix
strip-suffix = refl

-- Stripping the suffix off a name that consists of allowed characters gives the name back.
pub strip_name_suffix-append :
    (n : String) → every is_alnum n ≡ true → strip_name_suffix (n ++ ".kro") ≡ n
unfolding every is_alnum is_lower is_digit
strip_name_suffix-append String.[] h = ap strip_name_suffix (nil-append ".kro") ∙ strip-suffix
strip_name_suffix-append (String.◌∷◌ c n) h =
    let here : (code c == b'.') ≡ false = ground (arith, h) in
    let rest : every is_alnum n ≡ true = ground (arith, h) in
    ap strip_name_suffix (cons-append c n ".kro")
    ∙ strip-cons c (n ++ ".kro") here
    ∙ ap (λ r. String.◌∷◌ c r) (strip_name_suffix-append n rest)
