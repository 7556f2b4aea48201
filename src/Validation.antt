-- ===== src/Validation.antt =====
-- The checks of src/utils/validation.rs. The regular expressions are data, matched by derivatives;
-- `Validation.Matching` relates the matcher to what an expression denotes.
pub mod Matching
pub mod Texts
pub mod Derived
use Prim.Native.Char.{code}
use Prim.Native.String
use Prim.Native.String.{len}
use kromer.Prelude.{
  ℕ, suc, String, Bool, true, false, not, ◌&&◌, ◌||◌, leb, ◌==◌, if◌then◌else◌, str_eq, codes,
}
use kromer.Database.Externals.{Externals}
use kromer.Validation.Matching.{Regex, set, seq, alt, star, between, maybe, char, is_match}

unfoldable pub is_lower : ℕ → Bool
is_lower c = leb b'a' c && leb c b'z'

unfoldable pub is_digit : ℕ → Bool
is_digit c = leb b'0' c && leb c b'9'

-- `[a-z0-9]`
unfoldable pub is_alnum : ℕ → Bool
unfolding is_lower is_digit
is_alnum c = is_lower c || is_digit c

-- `[a-z0-9-_]`, and `[a-z0-9_-]` in the source's other spelling
unfoldable pub is_name_char : ℕ → Bool
unfolding is_alnum
is_name_char c = is_alnum c || (c == b'-') || (c == b'_')

-- `[a-f0-9]`
unfoldable pub is_hex : ℕ → Bool
unfolding is_digit
is_hex c = is_digit c || (leb b'a' c && leb c b'f')

-- `\s`: the code points with the Unicode property White_Space
unfoldable pub is_space : ℕ → Bool
is_space c =
    (leb 9 c && leb c 13)
    || (c == 0x20)
    || (c == 0x85)
    || (c == 0xa0)
    || (c == 0x1680)
    || (leb 0x2000 c && leb c 0x200a)
    || (c == 0x2028)
    || (c == 0x2029)
    || (c == 0x202f)
    || (c == 0x205f)
    || (c == 0x3000)

-- `^k[a-z0-9]{9}$`
unfoldable pub address_re_v2 : Regex
unfolding is_alnum
address_re_v2 = seq (char b'k') (between 9 0 (set is_alnum))

abbrev address_item : Regex
address_item = alt address_re_v2 (between 10 0 (set is_hex))

-- `^(?:k[a-z0-9]{9}|[a-f0-9]{10})(?:,(?:k[a-z0-9]{9}|[a-f0-9]{10}))*$`
unfoldable pub address_list_re : Regex
unfolding address_re_v2 is_hex
address_list_re = seq address_item (star (seq (char b',') address_item))

-- `^(?:xn--)?[a-z0-9-_]{1,64}$`
unfoldable pub name_fetch_re : Regex
unfolding is_name_char
name_fetch_re =
    seq (maybe (seq (char b'x') (seq (char b'n') (seq (char b'-') (char b'-')))))
      (between 1 63 (set is_name_char))

-- `^[a-z0-9_-]{1,64}$`
unfoldable pub name_re : Regex
unfolding is_name_char
name_re = between 1 63 (set is_name_char)

-- `[^\s.?#]`
unfoldable pub starts_record : ℕ → Bool
unfolding is_space
starts_record c = not (is_space c || (c == b'.') || (c == b'?') || (c == b'#'))

-- `^[^\s.?#].[^\s]*$`; `.` is any code point but the line feed.
unfoldable pub name_a_record_re : Regex
unfolding starts_record is_space
name_a_record_re =
    seq (set starts_record) (seq (set (λ c. not (c == 10))) (star (set (λ c. not (is_space c)))))

-- `^(?:([a-z0-9-_]{1,32})@)?([a-z0-9]{1,64})\.kro$`
unfoldable pub name_meta_re : Regex
unfolding is_name_char is_alnum
name_meta_re = seq (maybe (seq (between 1 31 (set is_name_char)) (char b'@'))) (
    seq (between 1 63 (set is_alnum))
      (seq (char b'.') (seq (char b'k') (seq (char b'r') (char b'o')))))

module _ (x : Externals) where
  unfoldable pub is_valid_name : String → Bool → Bool
  unfolding name_fetch_re name_re is_match
  is_valid_name name fetching =
      let name' = x.to_lowercase name in
      if fetching
      then is_match name_fetch_re (codes name') && not (str_eq name' "") && leb (len name') 64
      else is_match name_re (codes name') && not (str_eq name' "") && leb (len name') 64

unfoldable pub is_valid_kromer_address : String → Bool
unfolding address_re_v2 is_match
is_valid_kromer_address address = is_match address_re_v2 (codes address)

unfoldable pub is_valid_kromer_address_list : String → Bool
unfolding address_list_re is_match
is_valid_kromer_address_list addresses = is_match address_list_re (codes addresses)

unfoldable pub is_valid_a_record : String → Bool
unfolding name_a_record_re is_match
is_valid_a_record a = not (str_eq a "") && leb (len a) 255 && is_match name_a_record_re (codes a)

-- `str::trim`
trim_start : String → String
unfolding is_space
trim_start String.[] = String.[]
trim_start (String.◌∷◌ c s) = if is_space (code c) then trim_start s else String.◌∷◌ c s

abbrev drop_space : ℕ → String → String → String
drop_space c s whole = if is_space c && str_eq s "" then "" else whole

trim_end : String → String
unfolding is_space
trim_end String.[] = String.[]
trim_end (String.◌∷◌ c s) = let rest = trim_end s in drop_space (code c) rest (String.◌∷◌ c rest)

unfoldable pub trim : String → String
unfolding trim_start trim_end
trim s = trim_end (trim_start s)

-- `str::replace(".kro", "")`, from the left.
unfoldable pub strip_name_suffix : String → String
strip_name_suffix (String.◌∷◌ a (String.◌∷◌ b (String.◌∷◌ c (String.◌∷◌ d s)))) =
    let rest = strip_name_suffix s in
    let kept = strip_name_suffix (String.◌∷◌ b (String.◌∷◌ c (String.◌∷◌ d s))) in
    if (code a == b'.') && (code b == b'k') && (code c == b'r') && (code d == b'o')
    then rest
    else String.◌∷◌ a kept
strip_name_suffix s = s
