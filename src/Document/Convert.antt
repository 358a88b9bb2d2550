-- ===== src/Document/Convert.antt =====
-- Positions to code points and back.
use pyinc.Prelude.{
  ℕ, zero, suc, ◌+◌, ◌≤◌, ◌≡◌, ◌≢◌, refl, sym, ap, ap₂, ◌∙◌, arith, ◌↔◌, ◌⊎◌, none, some, [], ◌∷◌,
  if◌then◌else◌, ltb, length, take, get_elem?, Option-cases, inl, inr,
}
use pyinc.Document.Lines.{Text, SourcePosition}
use pyinc.Document.Encoding.{
  Codec, PositionEncoding, utf_8, utf_16, utf_32, encoded_width, split_lines, Converted, converted,
  no_line, beyond_end, position, walk, total_width, to_codepoint, in_units, from_codepoint,
}

width_positive :
    (codec : Codec) (encoding : PositionEncoding) (c : ℕ) → 1 ≤ encoded_width codec encoding c
unfolding encoded_width
width_positive codec utf_8 c = codec.utf8_positive c
width_positive codec utf_16 c = omega (arith, codec.utf16_positive c)
width_positive codec utf_32 c = omega arith

module _ (codec : Codec) (encoding : PositionEncoding) where
  walk-stop :
      (line consumed target index : ℕ) (s : Text)
      → consumed ≡ target
      → walk codec encoding line consumed target index s ≡ position line index
  unfolding walk
  walk-stop line consumed target index [] h = ground arith
  walk-stop line consumed target index (c ∷ s) h = ground arith

  walk-next :
      (line consumed target index c : ℕ) (s : Text)
      → consumed + encoded_width codec encoding c ≤ target
      → walk codec encoding line consumed target index (c ∷ s)
        ≡ walk codec encoding line (consumed + encoded_width codec encoding c) target (suc index) s
  unfolding walk
  walk-next line consumed target index c s h = ground (arith, width_positive codec encoding c)

  walk-take :
      (line consumed target index i : ℕ) (s : Text)
      → i ≤ length s
      → target ≡ consumed + total_width codec encoding (take i s)
      → walk codec encoding line consumed target index s ≡ position line (index + i)
  unfolding total_width
  walk-take line consumed target index zero s h e =
      walk-stop line consumed target index s (omega (arith, e)) ∙ ap (position line) (omega arith)
  walk-take line consumed target index (suc i) [] h e = absurd omega arith
  walk-take line consumed target index (suc i) (c ∷ s) h e =
      walk-next line consumed target index c s (omega (arith, e))
      ∙ walk-take line (consumed + encoded_width codec encoding c) target (suc index) i s
          (omega arith) (omega (arith, e))
      ∙ ap (position line) (omega arith)

  -- What a loop that ended with a position has taken.
  HasTaken : ℕ → ℕ → ℕ → ℕ → ℕ → ℕ → Text → Type 0
  HasTaken line consumed target index found_line k s =
      (found_line ≡ line)
      × ((i : ℕ) × ((i ≤ length s)
            × ((k ≡ index + i) × (target ≡ consumed + total_width codec encoding (take i s)))))

  position-first :
      (line k found_line found_k : ℕ)
      → position line k ≡ position found_line found_k
      → (found_line ≡ line) × (found_k ≡ k)
  position-first line k found_line found_k h = (cc h, cc h)

  stopped-HasTaken :
      (line consumed target index found_line k : ℕ) (s : Text)
      → consumed ≡ target
      → walk codec encoding line consumed target index s ≡ position found_line k
      → HasTaken line consumed target index found_line k s
  unfolding total_width HasTaken
  stopped-HasTaken line consumed target index found_line k s e h =
      let place =
        position-first line index found_line k
          (sym (walk-stop line consumed target index s e) ∙ h) in
      (place.0, (0, (omega arith, (omega (arith, place.1), omega (arith, e)))))

  walk-end :
      (line consumed target index found_line k : ℕ)
      → walk codec encoding line consumed target index [] ≡ position found_line k
      → consumed ≡ target
  unfolding walk
  walk-end line consumed target index found_line k h = ground arith

  walk-on :
      (line consumed target index found_line k c : ℕ) (s : Text)
      → walk codec encoding line consumed target index (c ∷ s) ≡ position found_line k
      → (consumed ≡ target) ⊎ (consumed + encoded_width codec encoding c ≤ target)
  unfolding walk
  walk-on line consumed target index found_line k c s h = ground arith

  walk-HasTaken :
      (line consumed target index found_line k : ℕ) (s : Text)
      → walk codec encoding line consumed target index s ≡ position found_line k
      → HasTaken line consumed target index found_line k s
  unfolding total_width HasTaken
  walk-HasTaken line consumed target index found_line k [] h =
      stopped-HasTaken line consumed target index found_line k []
        (walk-end line consumed target index found_line k h) h
  walk-HasTaken line consumed target index found_line k (c ∷ s) h =
      elim (walk-on line consumed target index found_line k c s h) [
        | inl e ↦ stopped-HasTaken line consumed target index found_line k (c ∷ s) e h
        | inr le ↦
            let rest =
              walk-HasTaken line (consumed + encoded_width codec encoding c) target (suc index)
                found_line k s (sym (walk-next line consumed target index c s le) ∙ h) in
            (
              rest.0,
              (
                suc rest.1.0,
                (
                  omega (arith, rest.1.1.0),
                  (omega (arith, rest.1.1.1.0), omega (arith, rest.1.1.1.1)),
                ),
              ),
            )
      ]

-- p, in units, and q, in code points, are the same place of a line with this text.
IsSame : Codec → PositionEncoding → Text → SourcePosition → SourcePosition → Type 0
IsSame codec encoding text p q =
    (q.line ≡ p.line)
    × ((q.character ≤ length text) × (p.character ≡ in_units codec encoding text q.character))

-- The part of `to_codepoint` for the line's text
to_line : Codec → PositionEncoding → Text → SourcePosition → Converted
to_line codec utf_32 text p = if ltb (length text) p.character then beyond_end else converted p
to_line codec encoding text p = walk codec encoding p.line 0 p.character 0 text

from_line : Codec → PositionEncoding → Text → SourcePosition → Converted
from_line codec encoding text p =
    if ltb (length text) p.character
    then beyond_end
    else position p.line (in_units codec encoding text p.character)

same_position :
    (p q : SourcePosition) → p.line ≡ q.line → p.character ≡ q.character → converted p ≡ converted q
same_position p q h k = ap₂ position h k

walk-IsSame :
    (codec : Codec) (encoding : PositionEncoding) (text : Text) (p q : SourcePosition)
    → (walk codec encoding p.line 0 p.character 0 text ≡ converted q) ↔ (
        (q.line ≡ p.line)
        × ((q.character ≤ length text)
            × (p.character ≡ total_width codec encoding (take q.character text))))
unfolding HasTaken
walk-IsSame codec encoding text p q = (
  λ h.
      let taken = walk-HasTaken codec encoding p.line 0 p.character 0 q.line q.character text h in
      let place : taken.1.0 ≡ q.character = omega (arith, taken.1.1.1.0) in
      (
        taken.0,
        (
          omega (arith, taken.1.1.0, place),
          omega (arith, taken.1.1.1.1) ∙ ap (λ n. total_width codec encoding (take n text)) place,
        ),
      ),
  λ h.
      walk-take codec encoding p.line 0 p.character 0 q.character text h.1.0 (omega (arith, h.1.1))
      ∙ same_position (record { line = p.line; character = 0 + q.character }) q (sym h.0)
          (omega arith),
)

to_line-IsSame :
    (codec : Codec) (encoding : PositionEncoding) (text : Text) (p q : SourcePosition)
    → (to_line codec encoding text p ≡ converted q) ↔ IsSame codec encoding text p q
unfolding to_line IsSame in_units
to_line-IsSame codec utf_8 text p q = walk-IsSame codec utf_8 text p q
to_line-IsSame codec utf_16 text p q = walk-IsSame codec utf_16 text p q
to_line-IsSame codec utf_32 text p q = (
  λ h. (ground arith, (ground arith, ground arith)),
  λ h. ground (arith, h.1.0, h.1.1, same_position p q (sym h.0) h.1.1),
)

from_line-IsSame :
    (codec : Codec) (encoding : PositionEncoding) (text : Text) (p q : SourcePosition)
    → (from_line codec encoding text q ≡ converted p) ↔ IsSame codec encoding text p q
unfolding from_line IsSame
from_line-IsSame codec encoding text p q = (
  λ h. (ground arith, (ground arith, ground arith)),
  λ h. ground (
    arith,
    h.1.0,
    same_position (record { line = q.line; character = in_units codec encoding text q.character }) p
        h.0 (sym h.1.1),
  ),
)

to_codepoint-line :
    (codec : Codec) (source : Text) (encoding : PositionEncoding) (p : SourcePosition) (text : Text)
    → get_elem? (split_lines source) p.line ≡ some text
    → to_codepoint codec source encoding p ≡ to_line codec encoding text p
unfolding to_codepoint to_line
to_codepoint-line codec source utf_8 p text e = rw (e, to_codepoint) refl
to_codepoint-line codec source utf_16 p text e = rw (e, to_codepoint) refl
to_codepoint-line codec source utf_32 p text e = rw (e, to_codepoint) refl

to_codepoint-no_line :
    (codec : Codec) (source : Text) (encoding : PositionEncoding) (p : SourcePosition)
    → get_elem? (split_lines source) p.line ≡ none
    → to_codepoint codec source encoding p ≡ no_line
unfolding to_codepoint
to_codepoint-no_line codec source utf_8 p e = rw (e, to_codepoint) refl
to_codepoint-no_line codec source utf_16 p e = rw (e, to_codepoint) refl
to_codepoint-no_line codec source utf_32 p e = rw (e, to_codepoint) refl

from_codepoint-line :
    (codec : Codec) (source : Text) (encoding : PositionEncoding) (p : SourcePosition) (text : Text)
    → get_elem? (split_lines source) p.line ≡ some text
    → from_codepoint codec source encoding p ≡ from_line codec encoding text p
unfolding from_codepoint from_line
from_codepoint-line codec source encoding p text e = rw (e, from_codepoint) refl

from_codepoint-no_line :
    (codec : Codec) (source : Text) (encoding : PositionEncoding) (p : SourcePosition)
    → get_elem? (split_lines source) p.line ≡ none
    → from_codepoint codec source encoding p ≡ no_line
unfolding from_codepoint
from_codepoint-no_line codec source encoding p e = rw (e, from_codepoint) refl

no_line-converted : (p : SourcePosition) → no_line ≢ converted p
no_line-converted p e = absurd cc

-- For every source, encoding and positions p, in the units of the encoding, and q, in code points: `to_codepoint`
-- converts p to q exactly where `from_codepoint` converts q to p. Any other outcome is an error on both sides.
pub to_codepoint-from_codepoint :
    (codec : Codec) (source : Text) (encoding : PositionEncoding) (p q : SourcePosition)
    → (to_codepoint codec source encoding p ≡ converted q)
      ↔ (from_codepoint codec source encoding q ≡ converted p)
unfolding IsSame
to_codepoint-from_codepoint codec source encoding p q = (
  λ h. elim (Option-cases (get_elem? (split_lines source) p.line)) [
    | inl e ↦
        absurd (no_line-converted q (sym (to_codepoint-no_line codec source encoding p e) ∙ h))
    | inr (text, e) ↦
        let same =
          (to_line-IsSame codec encoding text p q).0
            (sym (to_codepoint-line codec source encoding p text e) ∙ h) in
        from_codepoint-line codec source encoding q text
          (ap (get_elem? (split_lines source)) same.0 ∙ e)
        ∙ (from_line-IsSame codec encoding text p q).1 same
  ],
  λ h. elim (Option-cases (get_elem? (split_lines source) q.line)) [
    | inl e ↦
        absurd (no_line-converted p (sym (from_codepoint-no_line codec source encoding q e) ∙ h))
    | inr (text, e) ↦
        let same =
          (from_line-IsSame codec encoding text p q).0
            (sym (from_codepoint-line codec source encoding q text e) ∙ h) in
        to_codepoint-line codec source encoding p text
          (ap (get_elem? (split_lines source)) (sym same.0) ∙ e)
        ∙ (to_line-IsSame codec encoding text p q).1 same
  ],
)
