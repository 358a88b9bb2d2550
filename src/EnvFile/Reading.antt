-- ===== src/EnvFile/Reading.antt =====
-- What `_parse_env_lines` reads of a line, and what each line of a text gives.
use pyinc.Prelude.{
  ℕ, suc, ◌+◌, ◌≤◌, ◌≡◌, refl, ap, ◌∙◌, arith, Bool, true, false, not, ◌&&◌, none, some, List, [],
  ◌∷◌, ◌++◌, if◌then◌else◌, ◌==◌, is_some, length, Option-cases, Bool-cases, inl, inr, All,
}
use mathlib.Core.List.{append-nil}
use pyinc.Document.Lines.{Text}
use pyinc.EnvFile.{
  before_quote, quoted_value, value_of, LineTools, Diagnostic, Entry, invalid_line,
  interpolation_reference, is_skipped, interpolations, parse_line, parse_lines, parse_env_lines,
}

-- A value that has no quote in it is what comes of it between quotes, whatever follows.
before_quote-append :
    (quote : ℕ) (v rest : Text)
    → All (λ c. (c == quote) ≡ false) v
    → before_quote quote (v ++ (quote ∷ rest)) ≡ some v
unfolding before_quote
before_quote-append quote [] rest h = ground arith
before_quote-append quote (c ∷ v) rest h = rw (h.0, before_quote-append quote v rest h.1) refl

quoted_value-append :
    (quote : ℕ) (v rest : Text)
    → All (λ c. (c == quote) ≡ false) v
    → quoted_value quote (v ++ (quote ∷ rest)) ≡ (v, true)
unfolding quoted_value
quoted_value-append quote v rest h = rw (before_quote-append quote v rest h, quoted_value) refl

-- A value without a double quote, whatever else is in it, written between double quotes is read back, marked as quoted,
-- with no regard to what follows the closing quote; and so is a value without a single quote between single quotes.
pub value_of-quoted :
    (t : LineTools) (v u rest : Text)
    → All (λ c. (c == 34) ≡ false) v
    → All (λ c. (c == 39) ≡ false) u
    → (value_of t (34 ∷ v ++ (34 ∷ rest)) ≡ (v, true))
      × (value_of t (39 ∷ u ++ (39 ∷ rest)) ≡ (u, true))
unfolding value_of
value_of-quoted t v u rest h k = (quoted_value-append 34 v rest h, quoted_value-append 39 u rest k)

-- The key and the value of a line that is an assignment
abbrev pub assigned : LineTools → Text → List (Text × Text)
assigned t raw_line =
    if is_skipped (t.strip raw_line)
    then []
    else elim (t.match_line (t.sub_export (t.strip raw_line))) [
      | none ↦ []
      | some (key, raw_value) ↦ (key, (value_of t raw_value).0) ∷ []
    ]

-- No assignment, no comment and not blank
abbrev pub is_invalid : LineTools → Text → Bool
is_invalid t raw_line =
    not (is_skipped (t.strip raw_line))
    && not (is_some (t.match_line (t.sub_export (t.strip raw_line))))

-- The assignments that the entries of one line give
unfoldable pub entries_on : ℕ → List Entry → List (Text × Text)
entries_on line [] = []
entries_on line (e ∷ es) =
    let rest = entries_on line es in if e.line == line then (e.key, e.value) ∷ rest else rest

-- How often a line is reported as invalid
unfoldable pub invalid_on : ℕ → List Diagnostic → ℕ
invalid_on lineno [] = 0
invalid_on lineno (invalid_line n ∷ rest) =
    let later = invalid_on lineno rest in if n == lineno then suc later else later
invalid_on lineno (interpolation_reference n key ∷ rest) = invalid_on lineno rest

entries_on-append :
    (n : ℕ) (xs ys : List Entry) → entries_on n (xs ++ ys) ≡ entries_on n xs ++ entries_on n ys
unfolding entries_on
entries_on-append n [] ys = refl
entries_on-append n (x ∷ xs) ys = ground (arith, entries_on-append n xs ys)

invalid_on-append :
    (n : ℕ) (xs ys : List Diagnostic) → invalid_on n (xs ++ ys) ≡ invalid_on n xs + invalid_on n ys
unfolding invalid_on
invalid_on-append n [] ys = omega arith
invalid_on-append n (invalid_line m ∷ xs) ys = ground (arith, invalid_on-append n xs ys)
invalid_on-append n (interpolation_reference m key ∷ xs) ys = invalid_on-append n xs ys

module _ (t : LineTools) where
  interpolations-invalid :
      (n lineno : ℕ) (key value : Text) → invalid_on n (interpolations t lineno key value) ≡ 0
  unfolding interpolations invalid_on
  interpolations-invalid n lineno key value = ground arith

  -- What a line adds is of that line alone.
  parse_line-other :
      (n m : ℕ) (raw_line : Text)
      → (m == n) ≡ false
      → (entries_on n (parse_line t (suc m) raw_line).0 ≡ [])
        × (invalid_on (suc n) (parse_line t (suc m) raw_line).1 ≡ 0)
  unfolding parse_line entries_on invalid_on
  parse_line-other n m raw_line h = elim (Bool-cases (is_skipped (t.strip raw_line))) [
    | inl e ↦ (rw (e, parse_line) refl, rw (e, parse_line) refl)
    | inr e ↦ elim (Option-cases (t.match_line (t.sub_export (t.strip raw_line)))) [
      | inl o ↦ (ground (arith, e, o, h), ground (arith, e, o, h))
      | inr ((key, raw_value), o) ↦ (
        ground (arith, e, o, h),
        ground
            (arith, e, o, h, interpolations-invalid (suc n) (suc m) key (value_of t raw_value).0),
      )
    ]
  ]

  parse_line-own :
      (n : ℕ) (raw_line : Text)
      → (entries_on n (parse_line t (suc n) raw_line).0 ≡ assigned t raw_line)
        × (invalid_on (suc n) (parse_line t (suc n) raw_line).1
            ≡ (if is_invalid t raw_line then 1 else 0))
  unfolding parse_line entries_on invalid_on
  parse_line-own n raw_line = elim (Bool-cases (is_skipped (t.strip raw_line))) [
    | inl e ↦ (ground (arith, e), ground (arith, e))
    | inr e ↦ elim (Option-cases (t.match_line (t.sub_export (t.strip raw_line)))) [
      | inl o ↦ (ground (arith, e, o), ground (arith, e, o))
      | inr ((key, raw_value), o) ↦ (
        ground (arith, e, o),
        ground (arith, e, o, interpolations-invalid (suc n) (suc n) key (value_of t raw_value).0),
      )
    ]
  ]

  parse_lines-later :
      (n m : ℕ) (lines : List Text)
      → suc n ≤ m
      → (entries_on n (parse_lines t (suc m) lines).0 ≡ [])
        × (invalid_on (suc n) (parse_lines t (suc m) lines).1 ≡ 0)
  unfolding parse_lines entries_on invalid_on
  parse_lines-later n m [] h = (refl, refl)
  parse_lines-later n m (raw_line ∷ rest) h =
      let here = parse_line t (suc m) raw_line in
      let later = parse_lines t (suc (suc m)) rest in
      let a = parse_line-other n m raw_line (ground (arith, h)) in
      let b = parse_lines-later n (suc m) rest (omega arith) in
      (
        ground (arith, entries_on-append n here.0 later.0, a.0, b.0),
        ground (arith, invalid_on-append (suc n) here.1 later.1, a.1, b.1),
      )

  parse_lines-line :
      (m : ℕ) (before after : List Text) (raw_line : Text)
      → (entries_on (length before + m) (parse_lines t (suc m) (before ++ raw_line ∷ after)).0
          ≡ assigned t raw_line)
        × (invalid_on
              (suc (length before + m))
              (parse_lines t (suc m) (before ++ raw_line ∷ after)).1
            ≡ (if is_invalid t raw_line then 1 else 0))
  unfolding parse_lines
  parse_lines-line m [] after raw_line =
      let here = parse_line t (suc m) raw_line in
      let later = parse_lines t (suc (suc m)) after in
      let a = parse_line-own m raw_line in
      let b = parse_lines-later m (suc m) after (omega arith) in
      let none_before : 0 + m ≡ m = omega arith in
      (
        ap (λ n. entries_on n (here.0 ++ later.0)) none_before
            ∙ entries_on-append m here.0 later.0
            ∙ ap (λ l. entries_on m here.0 ++ l) b.0
            ∙ append-nil (entries_on m here.0)
            ∙ a.0,
        ap (λ n. invalid_on (suc n) (here.1 ++ later.1)) none_before
            ∙ omega (arith, invalid_on-append (suc m) here.1 later.1, a.1, b.1),
      )
  parse_lines-line m (x ∷ before) after raw_line =
      let n = length before + suc m in
      let same : length (x ∷ before) + m ≡ n = omega arith in
      let here = parse_line t (suc m) x in
      let later = parse_lines t (suc (suc m)) (before ++ raw_line ∷ after) in
      let a = parse_line-other n m x (ground arith) in
      let b = parse_lines-line (suc m) before after raw_line in
      (
        ap (λ k. entries_on k (here.0 ++ later.0)) same
            ∙ entries_on-append n here.0 later.0
            ∙ ap (λ l. l ++ entries_on n later.0) a.0
            ∙ b.0,
        ap (λ k. invalid_on (suc k) (here.1 ++ later.1)) same
            ∙ omega (arith, invalid_on-append (suc n) here.1 later.1, a.1, b.1),
      )

  -- For each line of a text, between the lines before and after it: the entries of that line are one with the key and
  -- the value that are matched in it, if it is an assignment, and none otherwise; and it is reported as invalid once if it
  -- is neither blank, a comment nor an assignment, and never otherwise. Entries count lines from zero, reports from one.
  pub parse_env_lines-line :
      (text : Text) (before after : List Text) (raw_line : Text)
      → t.splitlines text ≡ before ++ raw_line ∷ after
      → (entries_on (length before) (parse_env_lines t text).0 ≡ assigned t raw_line)
        × (invalid_on (suc (length before)) (parse_env_lines t text).1
            ≡ (if is_invalid t raw_line then 1 else 0))
  unfolding parse_env_lines
  parse_env_lines-line text before after raw_line e =
      let r = parse_lines-line 0 before after raw_line in
      let zero_more : length before ≡ length before + 0 = omega arith in
      (
        ap (λ n. entries_on n (parse_env_lines t text).0) zero_more
            ∙ ap (λ lines. entries_on (length before + 0) (parse_lines t 1 lines).0) e
            ∙ r.0,
        ap (λ n. invalid_on (suc n) (parse_env_lines t text).1) zero_more
            ∙ ap (λ lines. invalid_on (suc (length before + 0)) (parse_lines t 1 lines).1) e
            ∙ r.1,
      )
