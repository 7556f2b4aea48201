-- ===== src/Prelude/Texts.antt =====
-- Texts as lists of code points, and the character of a byte.
use Prim.Native.Char.{Char, char, code, nul}
use Prim.Native.Nat.{ℕ, compare, Ordering, ◌<◌}
use Prim.Native.String.{String, ◌++◌}
use mathlib.Core.List.{List, [], ◌∷◌, ◌++◌ as ◌++ᴸ◌}
use mathlib.Core.Path.{◌≡◌, refl, ap, ◌∙◌}
use native.Mathlib.Omega.{arith}
use text.Mathlib.TextLemmas.{nil-append, cons-append}

-- The code points of a text.
abbrev pub codes : String → List ℕ
codes String.[] = []
codes (String.◌∷◌ c s) = code c ∷ codes s

char_by : (n : ℕ) (o : Ordering) → compare n 55296 ≡ o → Char
char_by n Ordering.lt e = char n (rw e tt)
char_by n _ e = nul

-- `byte as char`
unfoldable pub as_char : ℕ → Char
unfolding char_by
as_char n = char_by n (compare n 55296) refl

code_by : (n : ℕ) (o : Ordering) (e : compare n 55296 ≡ o) → n < 256 → code (char_by n o e) ≡ n
unfolding char_by
code_by n Ordering.lt e h = refl
code_by n Ordering.eq e h = ground (arith, e, h)
code_by n Ordering.gt e h = ground (arith, e, h)

pub code-as_char : (n : ℕ) → n < 256 → code (as_char n) ≡ n
unfolding as_char
code-as_char n h = code_by n (compare n 55296) refl h

-- `String::push`
abbrev pub push_char : String → Char → String
push_char s c = s ++ String.◌∷◌ c String.[]

pub codes-push_char : (s : String) (c : Char) → codes (push_char s c) ≡ codes s ++ᴸ code c ∷ []
codes-push_char String.[] c = ap codes (nil-append (String.◌∷◌ c String.[]))
codes-push_char (String.◌∷◌ d s) c =
    ap codes (cons-append d s (String.◌∷◌ c String.[])) ∙ ap (λ l. code d ∷ l) (codes-push_char s c)
