-- ===== src/Document/Tests.antt =====
-- A source with both kinds of line ending, and codecs by the size of the code point.
use pyinc.Prelude.{
  ℕ, ◌+◌, ◌≤◌, ◌≡◌, refl, arith, ◌↔◌, some, [], ◌∷◌, map, if◌then◌else◌, ltb, length,
}
use pyinc.Document.Lines.{
  Text, SourcePosition, source_line_bounds, source_position_to_offset, found,
  source_offset_to_position, replace_source_line,
}
use pyinc.Document.Offsets.{offset_to_position-position_to_offset, offset_to_position-found}
use pyinc.Document.Encoding.{
  Codec, utf_8, converted, splits_character, to_codepoint, from_codepoint, split_lines,
}
use pyinc.Document.Convert.{to_codepoint-from_codepoint}
use pyinc.Document.Slices.{slice, split_lines-bounds}

-- "aé\r\nb\n", with é one code point
abbrev source : Text
source = 97 ∷ 233 ∷ 13 ∷ 10 ∷ 98 ∷ 10 ∷ []

abbrev utf8_size : ℕ → ℕ
utf8_size c = if ltb c 128 then 1 else if ltb c 2048 then 2 else if ltb c 65536 then 3 else 4

abbrev utf16_size : ℕ → ℕ
utf16_size c = if ltb c 65536 then 2 else 4

utf8_some : (c : ℕ) → 1 ≤ utf8_size c
utf8_some c = ground arith

utf16_some : (c : ℕ) → 2 ≤ utf16_size c
utf16_some c = ground arith

abbrev codec : Codec
codec = record {
  utf8_length =
      λ c. if ltb c 128 then 1 else if ltb c 2048 then 2 else if ltb c 65536 then 3 else 4;
  utf16_length = utf16_size;
  utf8_positive = utf8_some;
  utf16_positive = utf16_some;
}

abbrev place : ℕ → ℕ → SourcePosition
place line character = record { line = line; character = character }

split_lines-source : split_lines source ≡ (97 ∷ 233 ∷ []) ∷ (98 ∷ []) ∷ [] ∷ []
unfolding split_lines
split_lines-source = refl

replace_source_line-source :
    replace_source_line source 1 (99 ∷ []) ≡ 97 ∷ 233 ∷ 13 ∷ 10 ∷ 99 ∷ 10 ∷ []
unfolding replace_source_line
replace_source_line-source = refl

-- Between the carriage return and the line feed
source_offset_to_position-break : source_offset_to_position source 3 ≡ found (place 0 2)
unfolding source_offset_to_position
source_offset_to_position-break = refl

to_codepoint-splits : to_codepoint codec source utf_8 (place 0 2) ≡ splits_character
unfolding to_codepoint
to_codepoint-splits = refl

offset_to_position-position_to_offset_example :
    (5 ≤ length source) × (source_offset_to_position source 5 ≡ found (place 1 1))
unfolding source_position_to_offset
offset_to_position-position_to_offset_example =
    offset_to_position-position_to_offset source (place 1 1) 5 refl

offset_to_position-found_example :
    (p : SourcePosition) × ((back : ℕ) × ((source_offset_to_position source 3 ≡ found p)
        × ((source_position_to_offset source p ≡ some back) × ((back ≤ 3) × (3 ≤ 1 + back)))))
offset_to_position-found_example = offset_to_position-found source 3 (omega arith)

to_codepoint-from_codepoint_example :
    (to_codepoint codec source utf_8 (place 0 3) ≡ converted (place 0 2))
    ↔ (from_codepoint codec source utf_8 (place 0 2) ≡ converted (place 0 3))
to_codepoint-from_codepoint_example =
    to_codepoint-from_codepoint codec source utf_8 (place 0 3) (place 0 2)

split_lines-bounds_example : map (slice source) (source_line_bounds source) ≡ split_lines source
split_lines-bounds_example = split_lines-bounds source
