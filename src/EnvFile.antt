-- ===== src/EnvFile.antt =====
-- integrations/env_file.py: `_parse_env_lines`. A text is its code points. Python's `splitlines` and strips, and the
-- regular expressions, are parameters. A diagnostic stands for its text, with the line and the key in it.
mod Tests
pub mod Reading
use pyinc.Prelude.{
  ℕ, zero, suc, ◌+◌, ◌-◌, ◌≡◌, refl, sym, ap, ◌∙◌, arith, Bool, true, false, ◌&&◌, ◌||◌, not,
  Option, none, some, List, [], ◌∷◌, ◌++◌, if◌then◌else◌, ◌==◌, length, Option-cases, Bool-cases,
  inl, inr, All, length-append,
}
use pyinc.Document.Lines.{Text}

-- `raw_value[1:end]`, up to the closing quote
unfoldable pub before_quote : ℕ → Text → Option Text
before_quote quote [] = none
before_quote quote (c ∷ s) =
    let later = before_quote quote s in
    if c == quote then some [] else elim later [ none ↦ none | some v ↦ some (c ∷ v) ]

-- `raw_value[:comment_idx]`, up to a space and `#`
unfoldable pub before_comment : Text → Option Text
before_comment [] = none
before_comment (c ∷ []) = none
before_comment (c ∷ (d ∷ s)) =
    let later = before_comment (d ∷ s) in
    if c == 32 && d == 35 then some [] else elim later [ none ↦ none | some v ↦ some (c ∷ v) ]

unfoldable pub quoted_value : ℕ → Text → Text × Bool
unfolding before_quote
quoted_value quote s = elim (before_quote quote s) [
  | some v ↦ (v, true)
  | none ↦ (quote ∷ s, false)
]

pub record Entry : Type 0 where
  pub key : Text
  pub value : Text
  pub quoted : Bool
  pub line : ℕ
  pub start_character : ℕ
  pub end_character : ℕ

pub data Diagnostic : Type 0 where
  invalid_line : ℕ → Diagnostic
  interpolation_reference : ℕ → Text → Diagnostic

-- What Python does of the lines
pub record LineTools : Type 0 where
  pub splitlines : Text → List Text
  pub strip : Text → Text
  pub lstrip : Text → Text
  pub rstrip : Text → Text
  pub sub_export : Text → Text
  pub match_line : Text → Option (Text × Text)
  pub has_interpolation : Text → Bool

-- Nothing to parse, or a comment
unfoldable pub is_skipped : Text → Bool
is_skipped [] = true
is_skipped (c ∷ s) = c == 35

module _ (t : LineTools) where
  -- The value, and whether it was quoted
  unfoldable pub value_of : Text → Text × Bool
  unfolding quoted_value before_comment
  value_of [] = ([], false)
  value_of (c ∷ s) =
      if c == 34
      then quoted_value 34 s
      else if c == 39
      then quoted_value 39 s
      else (elim (before_comment (c ∷ s)) [ some v ↦ t.rstrip v | none ↦ c ∷ s ], false)

  unfoldable pub interpolations : ℕ → Text → Text → List Diagnostic
  interpolations lineno key value =
      if t.has_interpolation value then interpolation_reference lineno key ∷ [] else []

  -- The body of the loop: what a line adds to the entries and to the diagnostics
  unfoldable pub parse_line : ℕ → Text → List Entry × List Diagnostic
  unfolding is_skipped value_of interpolations
  parse_line lineno raw_line =
      if is_skipped (t.strip raw_line)
      then ([], [])
      else elim (t.match_line (t.sub_export (t.strip raw_line))) [
        | none ↦ ([], invalid_line lineno ∷ [])
        | some (key, raw_value) ↦ (
          record {
            key = key;
            value = (value_of raw_value).0;
            quoted = (value_of raw_value).1;
            line = lineno - 1;
            start_character = length raw_line - length (t.lstrip raw_line);
            end_character = length (t.rstrip raw_line);
          }
              ∷ [],
          interpolations lineno key (value_of raw_value).0,
        )
      ]

  unfoldable pub parse_lines : ℕ → List Text → List Entry × List Diagnostic
  unfolding parse_line
  parse_lines lineno [] = ([], [])
  parse_lines lineno (raw_line ∷ rest) =
      let here = parse_line lineno raw_line in
      let later = parse_lines (suc lineno) rest in (here.0 ++ later.0, here.1 ++ later.1)

  unfoldable pub parse_env_lines : Text → List Entry × List Diagnostic
  unfolding parse_lines
  parse_env_lines text = parse_lines 1 (t.splitlines text)
