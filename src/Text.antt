-- ===== src/Text.antt =====
-- Go strings as lists of bytes, and the functions of the packages strings and sort that the
-- program calls. Text is ASCII: see the header of Lib.antt.
pub mod Sorted
pub mod Eq
pub mod Set
pub mod Map
pub mod Decimal
pub mod Replace
pub mod Quote
pub mod Split
pub mod Trim
use Prim.Native.Char.{code}
use private_dns_operator.Prelude.{
  ℕ, ◌+◌, String, Bool, true, false, not, ◌&&◌, ◌||◌, List, [], ◌∷◌, ◌++◌, ltb, leb, eqb,
  if◌then◌else◌, Option, none, some, map, is_empty, sort_by,
}
unfoldable pub use Eq.{Text, ◌==◌}

-- The bytes of an ASCII literal.
abbrev pub codes : String → Text
codes String.[] = []
codes (String.◌∷◌ c s) = code c ∷ codes s

-- `s < t` on strings.
unfoldable pub text_lt : Text → Text → Bool
text_lt s [] = false
text_lt [] (d ∷ t) = true
text_lt (c ∷ s) (d ∷ t) = ltb c d || (eqb c d && text_lt s t)

-- `sort.Strings`.
unfoldable pub sort_texts : List Text → List Text
unfolding text_lt sort_by
sort_texts = sort_by text_lt
