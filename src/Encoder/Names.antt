-- ===== src/Encoder/Names.antt =====
-- lib/encoder.js: names of types as texts, which are lists of the codes of characters, and what the
-- parsers of type names do with them: `parseParams`, a look for a word at an index, `substr` and
-- `trim`. A length that the source makes negative is 0 here, which takes nothing from a text either.
pub mod Native
pub mod Cql
pub mod Split
pub mod Alone
pub mod Brackets
pub mod Plain
pub mod RoundTrip
mod Tests
use Prim.Native.Char.{code}
use Prim.Native.String.{String}
use integration_hell.Common.{
  ℕ, zero, suc, Bool, true, false, ◌&&◌, ◌||◌, List, [], ◌∷◌, ◌++◌, take, drop, leb, ◌==◌,
  if◌then◌else◌,
}
use integration_hell.Common.Int.{ℤ, pos, negsuc}

abbrev pub Text : Type 0
Text = List ℕ

abbrev pub codes : String → Text
codes String.[] = []
codes (String.◌∷◌ c s) = code c ∷ codes s

abbrev pub substr : Text → ℕ → ℕ → Text
substr name start length = take length (drop start name)

abbrev pub starts_with : Text → Text → Bool
starts_with [] name = true
starts_with (c ∷ word) [] = false
starts_with (c ∷ word) (d ∷ name) = c == d && starts_with word name

abbrev pub same_text : Text → Text → Bool
same_text [] [] = true
same_text [] (d ∷ name) = false
same_text (c ∷ word) [] = false
same_text (c ∷ word) (d ∷ name) = c == d && same_text word name

-- `name.indexOf(word, start) === start`
abbrev pub stands_at : Text → ℕ → Text → Bool
stands_at name start word = starts_with word (drop start name)

abbrev pub up : ℤ → ℤ
up (pos n) = pos (suc n)
up (negsuc zero) = pos 0
up (negsuc (suc n)) = negsuc n

abbrev pub down : ℤ → ℤ
down (pos zero) = negsuc 0
down (pos (suc n)) = pos n
down (negsuc n) = negsuc (suc n)

abbrev pub is_zero : ℤ → Bool
is_zero (pos zero) = true
is_zero (pos (suc n)) = false
is_zero (negsuc n) = false

-- The level after a character.
abbrev pub level_after : ℕ → ℕ → ℕ → ℤ → ℤ
level_after opening closing c level =
    let opened = if c == opening then up level else level in
    if c == closing then down opened else opened

-- A comma between parameters ends the current one.
abbrev pub parted : Bool → ℕ → Text → (Text → List Text) → List Text
parted true c current rest = current ∷ rest []
parted false c current rest = rest (current ++ c ∷ [])

-- The loop of `parseParams` over the characters that are left; `current` are those from `paramStart` on.
unfoldable pub split : ℕ → ℕ → Text → ℤ → Text → List Text
split opening closing [] level current = current ∷ []
split opening closing (c ∷ text) level current =
    parted (is_zero (level_after opening closing c level) && c == b',') c current
      (split opening closing text (level_after opening closing c level))

unfoldable pub parse_params : Text → ℕ → ℕ → ℕ → ℕ → List Text
unfolding split
parse_params name start length opening closing =
    split opening closing (substr name start length) (pos 0) []

-- The white space that `trim` takes off.
abbrev pub is_space : ℕ → Bool
is_space c =
    c == 32
    || (leb 9 c && leb c 13)
    || c == 160
    || c == 5760
    || (leb 8192 c && leb c 8202)
    || c == 8232
    || c == 8233
    || c == 8239
    || c == 8287
    || c == 12288
    || c == 65279

abbrev pub trim_start : Text → Text
trim_start [] = []
trim_start (c ∷ text) = if is_space c then trim_start text else c ∷ text

abbrev pub in_front : ℕ → Text → Text
in_front c [] = if is_space c then [] else c ∷ []
in_front c (d ∷ text) = c ∷ d ∷ text

abbrev pub trim_end : Text → Text
trim_end [] = []
trim_end (c ∷ text) = in_front c (trim_end text)

abbrev pub trim : Text → Text
trim text = trim_end (trim_start text)
