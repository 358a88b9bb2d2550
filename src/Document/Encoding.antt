-- ===== src/Document/Encoding.antt =====
-- integrations/source_geometry.py: `DocumentMap`. A parameter tells how many units Python's codecs make of a
-- character; that they raise on a lone surrogate is left out.
use pyinc.Prelude.{
  ℕ, suc, ◌+◌, ◌/◌, ◌≤◌, ◌&&◌, ◌||◌, none, some, List, [], ◌∷◌, if◌then◌else◌, ltb, ◌==◌, length,
  take, get_elem?,
}
use pyinc.Document.Lines.{Text, SourcePosition}

-- The bytes of a character in UTF-8 and in UTF-16
pub record Codec : Type 0 where
  pub utf8_length : ℕ → ℕ
  pub utf16_length : ℕ → ℕ
  pub utf8_positive : (c : ℕ) → 1 ≤ utf8_length c
  pub utf16_positive : (c : ℕ) → 2 ≤ utf16_length c

pub data PositionEncoding : Type 0 where
  utf_8 utf_16 utf_32 : PositionEncoding

unfoldable pub encoded_width : Codec → PositionEncoding → ℕ → ℕ
encoded_width codec utf_8 c = codec.utf8_length c
encoded_width codec utf_16 c = codec.utf16_length c / 2
encoded_width codec utf_32 c = 1

unfoldable pub push : ℕ → List Text → List Text
push c [] = []
push c (line ∷ lines) = (c ∷ line) ∷ lines

-- `re.split(r"\r\n?|\n", source)`
unfoldable pub split_lines : Text → List Text
unfolding push
split_lines [] = [] ∷ []
split_lines (c ∷ []) = if c == 10 || c == 13 then [] ∷ ([] ∷ []) else (c ∷ []) ∷ []
split_lines (c ∷ (d ∷ s)) =
    let both = split_lines s in
    let rest = split_lines (d ∷ s) in
    if c == 13 && d == 10 then [] ∷ both else if c == 10 || c == 13 then [] ∷ rest else push c rest

-- A position, or one of the `ValueError`s.
pub data Converted : Type 0 where
  converted : SourcePosition → Converted
  no_line beyond_end splits_character : Converted

abbrev pub position : ℕ → ℕ → Converted
position line character = converted (record { line = line; character = character })

module _ (codec : Codec) (encoding : PositionEncoding) where
  -- The loop of `to_codepoint` on the rest of a line
  unfoldable pub walk : ℕ → ℕ → ℕ → ℕ → Text → Converted
  unfolding encoded_width
  walk line consumed target index [] =
      if consumed == target then position line index else beyond_end
  walk line consumed target index (c ∷ s) =
      let width = encoded_width codec encoding c in
      let later = walk line (consumed + width) target (suc index) s in
      if consumed == target
      then position line index
      else if ltb target (consumed + width)
      then splits_character
      else later

  unfoldable pub total_width : Text → ℕ
  unfolding encoded_width
  total_width [] = 0
  total_width (c ∷ s) = encoded_width codec encoding c + total_width s

unfoldable pub to_codepoint : Codec → Text → PositionEncoding → SourcePosition → Converted
unfolding split_lines walk
to_codepoint codec source utf_32 p = elim (get_elem? (split_lines source) p.line) [
  | none ↦ no_line
  | some text ↦ if ltb (length text) p.character then beyond_end else converted p
]
to_codepoint codec source encoding p = elim (get_elem? (split_lines source) p.line) [
  | none ↦ no_line
  | some text ↦ walk codec encoding p.line 0 p.character 0 text
]

-- A character of a line in the units of an encoding
unfoldable pub in_units : Codec → PositionEncoding → Text → ℕ → ℕ
unfolding total_width
in_units codec utf_32 text character = character
in_units codec encoding text character = total_width codec encoding (take character text)

unfoldable pub from_codepoint : Codec → Text → PositionEncoding → SourcePosition → Converted
unfolding split_lines in_units
from_codepoint codec source encoding p = elim (get_elem? (split_lines source) p.line) [
  | none ↦ no_line
  | some text ↦
      if ltb (length text) p.character
      then beyond_end
      else position p.line (in_units codec encoding text p.character)
]
