-- ===== src/Base/Text.antt =====
-- Go strings as lists of bytes, and what the source takes from package strings.
use Prim.Native.Nat.{ℕ}
use Prim.Native.Char.{code}
use Prim.Native.String.{String}
use mathlib.Core.Path.{◌≡◌}
use mathlib.Core.Bool.{Bool, true, false, not, ◌&&◌, ◌||◌}
use mathlib.Core.List.{List, [], ◌∷◌, ◌++◌}
use mathlib.Core.Logic.{◌↔◌}
use native.Mathlib.Omega.{arith}
use slimwhats.Base.Tests.{◌==◌, if◌then◌else◌}
use slimwhats.Base.Lists.{filter}

abbrev pub Bytes : Type 0
Bytes = List ℕ

-- The code points of a literal; these are its bytes, for the literals here are ASCII.
abbrev pub codes : String → Bytes
codes String.[] = []
codes (String.◌∷◌ c s) = code c ∷ codes s

-- `a == b` on strings
unfoldable pub str_eq : Bytes → Bytes → Bool
str_eq [] [] = true
str_eq (x ∷ xs) (y ∷ ys) = x == y && str_eq xs ys
str_eq _ _ = false

pub str_eq_iff : (a b : Bytes) → (str_eq a b ≡ true) ↔ (a ≡ b)
unfolding str_eq
str_eq_iff (x ∷ a) (y ∷ b) = ground (arith, str_eq_iff a b)
str_eq_iff _ _ = ground arith

-- `s == ""`
abbrev pub is_empty : Bytes → Bool
is_empty [] = true
is_empty (c ∷ s) = false

-- `strings.HasPrefix(s, prefix)`
unfoldable pub has_prefix : Bytes → Bytes → Bool
has_prefix s [] = true
has_prefix [] (p ∷ ps) = false
has_prefix (c ∷ s) (p ∷ ps) = c == p && has_prefix s ps

-- `strings.Contains(s, sub)`
unfoldable pub contains : Bytes → Bytes → Bool
unfolding has_prefix
contains [] sub = has_prefix [] sub
contains (c ∷ s) sub = has_prefix (c ∷ s) sub || contains s sub

-- `strings.ReplaceAll(s, string(b), "")`, for a text of one byte
abbrev pub remove_byte : ℕ → Bytes → Bytes
remove_byte b = filter (λ c. not (c == b))

-- `strings.SplitN(s, string(b), 2)[0]`
unfoldable pub before_byte : ℕ → Bytes → Bytes
before_byte b [] = []
before_byte b (c ∷ s) = let rest = before_byte b s in if c == b then [] else c ∷ rest

-- A text that holds `sub` holds it behind any other.
pub contains-append : (xs ys sub : Bytes) → contains ys sub ≡ true → contains (xs ++ ys) sub ≡ true
unfolding contains
contains-append [] ys sub h = h
contains-append (x ∷ xs) ys sub h = ground (arith, contains-append xs ys sub h)
