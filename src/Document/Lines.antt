-- ===== src/Document/Lines.antt =====
-- pyinc_tools/_document.py: the lines of a source and positions in it. A text is its code points. Lines and
-- characters are natural numbers: the refusal of negative ones and of other types is left out.
use pyinc.Prelude.{
  ℕ, suc, ◌+◌, ◌-◌, ◌&&◌, ◌||◌, Option, none, some, List, [], ◌∷◌, ◌++◌, if◌then◌else◌, ltb, leb,
  ◌==◌, length, take, drop, get_elem?,
}

abbrev pub Text : Type 0
Text = List ℕ

-- A line's `start`, `content_end` and `next_start`
pub record Bounds : Type 0 where
  pub start : ℕ
  pub content_end : ℕ
  pub next_start : ℕ

-- `_source_line_bounds` from the place `at` on, in a line that began at `start`. A match of the pattern is
-- a carriage return with the line feed after it, or one of them.
unfoldable pub bounds_from : ℕ → ℕ → Text → List Bounds
bounds_from start at [] = record { start = start; content_end = at; next_start = at } ∷ []
bounds_from start at (c ∷ []) =
    let ended = bounds_from (at + 1) (at + 1) [] in
    let rest = bounds_from start (at + 1) [] in
    if c == 10 || c == 13
    then record { start = start; content_end = at; next_start = at + 1 } ∷ ended
    else rest
bounds_from start at (c ∷ (d ∷ s)) =
    let both = bounds_from (at + 2) (at + 2) s in
    let ended = bounds_from (at + 1) (at + 1) (d ∷ s) in
    let rest = bounds_from start (at + 1) (d ∷ s) in
    if c == 13 && d == 10
    then record { start = start; content_end = at; next_start = at + 2 } ∷ both
    else if c == 10 || c == 13
    then record { start = start; content_end = at; next_start = at + 1 } ∷ ended
    else rest

unfoldable pub source_line_bounds : Text → List Bounds
unfolding bounds_from
source_line_bounds source = bounds_from 0 0 source

unfoldable pub source_line_count : Text → ℕ
unfolding source_line_bounds
source_line_count source = length (source_line_bounds source)

pub record SourcePosition : Type 0 where
  pub line : ℕ
  pub character : ℕ

unfoldable pub source_position_to_offset : Text → SourcePosition → Option ℕ
unfolding source_line_bounds
source_position_to_offset source p = elim (get_elem? (source_line_bounds source) p.line) [
  | none ↦ none
  | some b ↦
      if ltb (b.content_end - b.start) p.character then none else some (b.start + p.character)
]

-- The `ValueError` and the `AssertionError` of `_source_offset_to_position`
pub data Located : Type 0 where
  found : SourcePosition → Located
  outside not_in_map : Located

unfoldable pub locate : ℕ → ℕ → List Bounds → Located
locate line offset [] = not_in_map
locate line offset (b ∷ bounds) =
    let later = locate (suc line) offset bounds in
    if leb offset b.content_end
    then found (record { line = line; character = offset - b.start })
    else if ltb offset b.next_start
    then found (record { line = line; character = b.content_end - b.start })
    else later

unfoldable pub source_offset_to_position : Text → ℕ → Located
unfolding locate source_line_bounds
source_offset_to_position source offset =
    if ltb (length source) offset then outside else locate 0 offset (source_line_bounds source)

unfoldable pub replace_source_line : Text → ℕ → Text → Text
unfolding source_line_bounds
replace_source_line source line replacement = elim (get_elem? (source_line_bounds source) line) [
  | none ↦ source
  | some b ↦ take b.start source ++ replacement ++ drop b.content_end source
]
