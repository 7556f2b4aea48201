-- ===== src/Database/Transactions/NameData.antt =====
-- `TransactionNameData` of src/database/transaction.rs: the recipient `meta@name.kro` taken apart.
use Prim.Native.Char.{code}
use Prim.Native.String.{count}
use kromer.Prelude.{
  ℕ, String, Option, none, some, Bool, false, ◌&&◌, leb, ◌==◌, str_eq, if◌then◌else◌,
}
use kromer.Database.{
  TransactionType, mined, unknown, name_purchase, name_a_record, name_transfer, transfer,
}
use kromer.Validation.{is_name_char, is_alnum}

-- `impl From<String> for TransactionType`
unfoldable pub transaction_type_of_string : String → TransactionType
transaction_type_of_string s =
    if str_eq s "mined"
    then mined
    else if str_eq s "name_purchase"
    then name_purchase
    else if str_eq s "name_a_record"
    then name_a_record
    else if str_eq s "name_transfer"
    then name_transfer
    else if str_eq s "transfer"
    then transfer
    else unknown

-- `impl From<TransactionType> for &str`
unfoldable pub string_of_transaction_type : TransactionType → String
string_of_transaction_type unknown = "unknown"
string_of_transaction_type mined = "mined"
string_of_transaction_type name_purchase = "name_purchase"
string_of_transaction_type name_a_record = "name_a_record"
string_of_transaction_type name_transfer = "name_transfer"
string_of_transaction_type transfer = "transfer"

pub record TransactionNameData : Type 0 where
  pub name : Option String
  pub metaname : Option String

-- `TransactionNameData::default()`
abbrev pub no_name : TransactionNameData
no_name = record { name = none; metaname = none }

-- The longest prefix of characters that pass the test, and the rest.
unfoldable pub span : (ℕ → Bool) → String → String × String
span p String.[] = (String.[], String.[])
span p (String.◌∷◌ c s) =
    let (taken, rest) = span p s in
    if p (code c) then (String.◌∷◌ c taken, rest) else (String.[], String.◌∷◌ c s)

-- `\.kro`
unfoldable pub after_kro : String → Bool
after_kro (String.◌∷◌ a (String.◌∷◌ b (String.◌∷◌ c (String.◌∷◌ d _)))) =
    (code a == b'.') && (code b == b'k') && (code c == b'r') && (code d == b'o')
after_kro _ = false

-- `([a-z0-9]{1,64})\.kro`: the dot is in no class, so the group is the longest run.
unfoldable pub match_name : String → Option String
unfolding span is_alnum after_kro
match_name s =
    let (run, rest) = span is_alnum s in
    if leb 1 (count run) && leb (count run) 64 && after_kro rest then some run else none

-- `@` and what follows it
unfoldable pub after_at : String → Option String
after_at String.[] = none
after_at (String.◌∷◌ c s) = if code c == b'@' then some s else none

abbrev pub meta_group : String → Option String → Option (String × String)
meta_group run none = none
meta_group run (some s) = some (run, s)

-- `([a-z0-9-_]{1,32})@`: `@` is in no class, so here too the group is the longest run.
unfoldable pub meta_of_span : String × String → Option (String × String)
unfolding after_at
meta_of_span (run, rest) =
    if leb 1 (count run) && leb (count run) 32 then meta_group run (after_at rest) else none

unfoldable pub match_meta : String → Option (String × String)
unfolding span is_name_char meta_of_span
match_meta s = meta_of_span (span is_name_char s)

abbrev pub only_name : Option String → TransactionNameData
only_name none = no_name
only_name (some n) = record { name = some n; metaname = none }

-- With the metaname, or else without it.
unfoldable pub with_name : String → String → Option String → TransactionNameData
unfolding match_name
with_name s m none = only_name (match_name s)
with_name s m (some n) = record { name = some n; metaname = some m }

unfoldable pub with_meta : String → Option (String × String) → TransactionNameData
unfolding match_name with_name
with_meta s none = only_name (match_name s)
with_meta s (some (m, rest)) = with_name s m (match_name rest)

-- `KRO_REGEX.captures`: the optional group is tried first.
unfoldable pub captures : String → TransactionNameData
unfolding match_meta with_meta
captures s = with_meta s (match_meta s)

unfoldable pub parse : String → TransactionNameData
unfolding captures
parse input = if str_eq input "" then no_name else captures input

unfoldable pub parse_opt : Option String → TransactionNameData
unfolding parse
parse_opt none = no_name
parse_opt (some input) = parse input
