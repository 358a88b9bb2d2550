-- ===== src/Document/Offsets.antt =====
-- Positions and offsets of a source: the way there and back.
use pyinc.Prelude.{
  ℕ, ◌+◌, ◌-◌, ◌≤◌, ◌≡◌, ap, ◌∙◌, arith, inl, inr, some, length, get_elem?, Option-cases,
}
use pyinc.Document.Lines.{
  Text, Bounds, source_line_bounds, SourcePosition, source_position_to_offset, found, locate,
  source_offset_to_position,
}
use pyinc.Document.Chains.{
  IsChain, bounds_from-IsChain, IsIn, chain-line, at_place, locate-line, IsFound, locate-IsFound,
}

source-IsChain : (source : Text) → IsChain 0 (length source) (source_line_bounds source)
unfolding source_line_bounds
source-IsChain source = bounds_from-IsChain 0 0 (length source) source (omega arith) (omega arith)

offset_to_position-locate :
    (source : Text) (offset : ℕ)
    → offset ≤ length source
    → source_offset_to_position source offset ≡ locate 0 offset (source_line_bounds source)
unfolding source_offset_to_position
offset_to_position-locate source offset h = ground arith

position_to_offset-line :
    (source : Text) (p : SourcePosition) (b : Bounds)
    → get_elem? (source_line_bounds source) p.line ≡ some b
    → p.character ≤ b.content_end - b.start
    → source_position_to_offset source p ≡ some (b.start + p.character)
unfolding source_position_to_offset
position_to_offset-line source p b e h = rw (e, source_position_to_offset) (ground arith)

-- For every source and position p: where `_source_position_to_offset` gives an offset, it is an offset of the
-- source, and `_source_offset_to_position` of it gives p again.
pub offset_to_position-position_to_offset :
    (source : Text) (p : SourcePosition) (offset : ℕ)
    → source_position_to_offset source p ≡ some offset
    → (offset ≤ length source) × (source_offset_to_position source offset ≡ found p)
unfolding source_position_to_offset IsIn
offset_to_position-position_to_offset source p offset h =
    elim (Option-cases (get_elem? (source_line_bounds source) p.line)) [
      | inl e ↦ absurd ground (arith, e, h)
      | inr (b, e) ↦
          let within : (p.character ≤ b.content_end - b.start) × (offset ≡ b.start + p.character) =
            (ground (arith, e, h), ground (arith, e, h)) in
          let inside =
            chain-line 0 (length source) p.line (source_line_bounds source) b
              (source-IsChain source) e in
          let place =
            locate-line 0 (length source) 0 p.line p.character (source_line_bounds source) b
              (source-IsChain source) e within.0 in
          (
            omega (arith, within.0, within.1, inside.0, inside.1.0, inside.1.1),
            offset_to_position-locate source offset
                  (omega (arith, within.0, within.1, inside.0, inside.1.0, inside.1.1))
                ∙ ap (λ o. locate 0 o (source_line_bounds source)) within.1
                ∙ place
                ∙ ap (λ l. at_place l p.character) (omega arith),
          )
    ]

-- Every offset of a source, its end included, has a position, and the offset of that position is the given one or,
-- between a carriage return and its line feed, one less: the `AssertionError` is never raised.
pub offset_to_position-found :
    (source : Text) (offset : ℕ)
    → offset ≤ length source
    → (p : SourcePosition) × ((back : ℕ) × ((source_offset_to_position source offset ≡ found p)
          × ((source_position_to_offset source p ≡ some back)
              × ((back ≤ offset) × (offset ≤ 1 + back)))))
unfolding IsFound
offset_to_position-found source offset h =
    let place =
      locate-IsFound 0 (length source) 0 offset (source_line_bounds source) (source-IsChain source)
        (omega arith) h in
    let i = place.0 in
    let b = place.1.0 in
    let character = place.1.1.0 in
    (
      record { line = i; character = character },
      (
        b.start + character,
        (
          offset_to_position-locate source offset h
              ∙ place.1.1.1.1.0
              ∙ ap (λ l. at_place l character) (omega arith),
          (
            position_to_offset-line source (record { line = i; character = character }) b
                place.1.1.1.0 place.1.1.1.1.1.0,
            place.1.1.1.1.1.1,
          ),
        ),
      ),
    )
