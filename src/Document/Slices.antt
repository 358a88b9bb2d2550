-- ===== src/Document/Slices.antt =====
-- The two tables of lines, that of `DocumentMap` and that of `_source_line_bounds`.
use mathlib.Core.List.{append-nil, append_assoc}
use mathlib.Core.Path.{subst}
use pyinc.Prelude.{
  ℕ, zero, suc, ◌+◌, ◌-◌, ◌≤◌, ◌≡◌, refl, sym, ap, ap₂, ◌∙◌, arith, Bool, true, false, ◌&&◌, ◌||◌,
  List, [], ◌∷◌, ◌++◌, map, if◌then◌else◌, ◌==◌, length, length-append, take, drop,
}
use pyinc.Document.Lines.{Text, Bounds, bounds_from, source_line_bounds}
use pyinc.Document.Encoding.{split_lines, push}

-- The text of a line
unfoldable pub slice : Text → Bounds → Text
slice source b = take (b.content_end - b.start) (drop b.start source)

prepend : Text → List Text → List Text
prepend line [] = []
prepend line (next ∷ lines) = (line ++ next) ∷ lines

prepend-nil : (lines : List Text) → prepend [] lines ≡ lines
unfolding prepend
prepend-nil [] = refl
prepend-nil (line ∷ lines) = refl

prepend-push :
    (line : Text) (c : ℕ) (lines : List Text)
    → prepend (line ++ (c ∷ [])) lines ≡ prepend line (push c lines)
unfolding prepend push
prepend-push line c [] = refl
prepend-push line c (next ∷ lines) = ap (λ l. l ∷ lines) (append_assoc line (c ∷ []) next)

take-line :
    (n start : ℕ) (before s : Text)
    → start + n ≡ length before
    → take n (drop start (before ++ s)) ≡ drop start before
take-line zero zero [] s e = refl
take-line (suc n) zero [] s e = absurd omega (arith, e)
take-line zero zero (c ∷ before) s e = absurd omega (arith, e)
take-line (suc n) zero (c ∷ before) s e =
    ap (λ l. c ∷ l) (take-line n zero before s (omega (arith, e)))
take-line n (suc start) [] s e = absurd omega (arith, e)
take-line n (suc start) (c ∷ before) s e = take-line n start before s (omega (arith, e))

drop-end : (at : ℕ) (before : Text) → length before ≡ at → drop at before ≡ []
drop-end zero [] e = refl
drop-end zero (c ∷ before) e = absurd omega (arith, e)
drop-end (suc at) [] e = refl
drop-end (suc at) (c ∷ before) e = drop-end at before (omega (arith, e))

drop-append :
    (start : ℕ) (before s : Text)
    → start ≤ length before
    → drop start (before ++ s) ≡ drop start before ++ s
drop-append zero before s h = refl
drop-append (suc start) [] s h = absurd omega arith
drop-append (suc start) (c ∷ before) s h = drop-append start before s (omega arith)

module _ (source : Text) where
  -- The lines from a place on: the bounds cut out what is split off, after what was read of the first line.
  IsCut : Text → List Bounds → List Text → Type 0
  IsCut line bounds lines = map (slice source) bounds ≡ prepend line lines

  IsCut-if :
      (b : Bool) (line : Text) (xs ys : List Bounds) (ls ms : List Text)
      → IsCut line xs ls
      → IsCut line ys ms
      → IsCut line (if b then xs else ys) (if b then ls else ms)
  IsCut-if true line xs ys ls ms h k = h
  IsCut-if false line xs ys ls ms h k = k

  -- The end of a line
  IsCut-cons :
      (start at next : ℕ) (before s : Text) (bounds : List Bounds) (lines : List Text)
      → before ++ s ≡ source
      → length before ≡ at
      → start ≤ at
      → IsCut [] bounds lines
      → IsCut
          (drop start before)
          (record { start = start; content_end = at; next_start = next } ∷ bounds)
          ([] ∷ lines)
  unfolding IsCut slice prepend
  IsCut-cons start at next before s bounds lines h e k rest =
      ap₂ (λ l ls. l ∷ ls)
        (ap (λ t. take (at - start) (drop start t)) (sym h)
          ∙ take-line (at - start) start before s (omega (arith, e, k))
          ∙ sym (append-nil (drop start before)))
        (rest ∙ prepend-nil lines)

  -- A character that ends no line
  IsCut-push :
      (start c : ℕ) (before : Text) (bounds : List Bounds) (lines : List Text)
      → start ≤ length before
      → IsCut (drop start (before ++ (c ∷ []))) bounds lines
      → IsCut (drop start before) bounds (push c lines)
  unfolding IsCut
  IsCut-push start c before bounds lines h rest =
      rest
      ∙ ap (λ l. prepend l lines) (drop-append start before (c ∷ []) h)
      ∙ prepend-push (drop start before) c lines

  none_left : (line : Text) → IsCut line [] []
  unfolding IsCut prepend
  none_left line = refl

  -- A new line has nothing read of it.
  IsCut-new :
      (at : ℕ) (before : Text) (bounds : List Bounds) (lines : List Text)
      → length before ≡ at
      → IsCut (drop at before) bounds lines
      → IsCut [] bounds lines
  IsCut-new at before bounds lines e rest =
      subst (λ line. IsCut line bounds lines) (drop-end at before e) rest

  bounds_from-IsCut :
      (start at : ℕ) (before s : Text)
      → before ++ s ≡ source
      → length before ≡ at
      → start ≤ at
      → IsCut (drop start before) (bounds_from start at s) (split_lines s)
  unfolding bounds_from split_lines push
  bounds_from-IsCut start at before [] h e k =
      IsCut-cons start at at before [] [] [] h e k (none_left [])
  bounds_from-IsCut start at before (c ∷ []) h e k =
      let more = append_assoc before (c ∷ []) [] ∙ h in
      let longer : length (before ++ (c ∷ [])) ≡ at + 1 =
        omega (arith, e, length-append before (c ∷ [])) in
      IsCut-if (c == 10 || c == 13) (drop start before) _ _ _ _
        (IsCut-cons start at (at + 1) before (c ∷ []) (bounds_from (at + 1) (at + 1) [])
          (split_lines []) h e k
          (IsCut-new (at + 1) (before ++ (c ∷ [])) (bounds_from (at + 1) (at + 1) [])
            (split_lines []) longer
            (bounds_from-IsCut (at + 1) (at + 1) (before ++ (c ∷ [])) [] more longer
              (omega arith))))
        (IsCut-push start c before (bounds_from start (at + 1) []) (split_lines [])
          (omega (arith, e, k))
          (bounds_from-IsCut start (at + 1) (before ++ (c ∷ [])) [] more longer (omega (arith, k))))
  bounds_from-IsCut start at before (c ∷ (d ∷ s)) h e k =
      let more = append_assoc before (c ∷ []) (d ∷ s) ∙ h in
      let both = append_assoc before (c ∷ (d ∷ [])) s ∙ h in
      let longer : length (before ++ (c ∷ [])) ≡ at + 1 =
        omega (arith, e, length-append before (c ∷ [])) in
      let longest : length (before ++ (c ∷ (d ∷ []))) ≡ at + 2 =
        omega (arith, e, length-append before (c ∷ (d ∷ []))) in
      IsCut-if (c == 13 && d == 10) (drop start before) _ _ _ _
        (IsCut-cons start at (at + 2) before (c ∷ (d ∷ s)) (bounds_from (at + 2) (at + 2) s)
          (split_lines s) h e k
          (IsCut-new (at + 2) (before ++ (c ∷ (d ∷ []))) (bounds_from (at + 2) (at + 2) s)
            (split_lines s) longest
            (bounds_from-IsCut (at + 2) (at + 2) (before ++ (c ∷ (d ∷ []))) s both longest
              (omega arith))))
        (IsCut-if (c == 10 || c == 13) (drop start before) _ _ _ _
          (IsCut-cons start at (at + 1) before (c ∷ (d ∷ s)) (bounds_from (at + 1) (at + 1) (d ∷ s))
            (split_lines (d ∷ s)) h e k
            (IsCut-new (at + 1) (before ++ (c ∷ [])) (bounds_from (at + 1) (at + 1) (d ∷ s))
              (split_lines (d ∷ s)) longer
              (bounds_from-IsCut (at + 1) (at + 1) (before ++ (c ∷ [])) (d ∷ s) more longer
                (omega arith))))
          (IsCut-push start c before (bounds_from start (at + 1) (d ∷ s)) (split_lines (d ∷ s))
            (omega (arith, e, k))
            (bounds_from-IsCut start (at + 1) (before ++ (c ∷ [])) (d ∷ s) more longer
              (omega (arith, k)))))

-- For every source, the lines of `DocumentMap` are what the bounds of `_source_line_bounds` cut out of it.
pub split_lines-bounds :
    (source : Text) → map (slice source) (source_line_bounds source) ≡ split_lines source
unfolding source_line_bounds IsCut
split_lines-bounds source =
    bounds_from-IsCut source 0 0 [] source refl refl (omega arith)
    ∙ prepend-nil (split_lines source)
