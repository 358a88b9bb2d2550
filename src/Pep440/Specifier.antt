-- ===== src/Pep440/Specifier.antt =====
-- integrations/_pep440.py: specifier sets, with the texts of the answers.
use Prim.Native.Char.{code}
use Prim.Native.String.{[], ◌∷◌, ◌++◌}
use text.Mathlib.Text.{◌==◌ as str_eq}
use pyinc.Prelude.{
  Bool, true, false, ◌&&◌, ◌||◌, not, Option, none, some, List, [], ◌∷◌, String, if◌then◌else◌,
  is_some, ◌==◌,
}
use pyinc.Pep440.Version.{Version}
use pyinc.Pep440.Clause.{
  Operator, arbitrary, compatible, equal, not_equal, at_most, at_least, less, greater, SpecifierSet,
  strip_wildcard, is_empty, satisfies_single,
}

unfoldable pub op_text : Operator → String
op_text arbitrary = "==="
op_text compatible = "~="
op_text equal = "=="
op_text not_equal = "!="
op_text at_most = "<="
op_text at_least = ">="
op_text less = "<"
op_text greater = ">"

-- `",".join(f"{op}{spec}" ...)`
unfoldable pub joined : SpecifierSet → String
unfolding op_text
joined [] = ""
joined ((operator, spec) ∷ []) = op_text operator ++ spec
joined ((operator, spec) ∷ (next ∷ rest)) = op_text operator ++ spec ++ "," ++ joined (next ∷ rest)

unfoldable pub is_arbitrary : Operator → Bool
is_arbitrary arbitrary = true
is_arbitrary _ = false

-- The first loop: the first `===` clause that the text fails
unfoldable pub other_text : SpecifierSet → String → Option String
unfolding is_arbitrary
other_text [] version_str = none
other_text ((operator, spec) ∷ rest) version_str =
    let later = other_text rest version_str in
    if is_arbitrary operator && not (str_eq version_str spec) then some spec else later

unfoldable pub remaining : SpecifierSet → SpecifierSet
unfolding is_arbitrary
remaining [] = []
remaining ((operator, spec) ∷ rest) =
    let later = remaining rest in if is_arbitrary operator then later else (operator, spec) ∷ later

unfoldable pub no_clauses : SpecifierSet → Bool
no_clauses [] = true
no_clauses (clause ∷ rest) = false

unfoldable pub is_prerelease : Version → Bool
is_prerelease v = is_some v.pre || is_some v.dev

-- The texts of the answers
unfoldable pub not_satisfied : String → Operator → String → String
unfolding op_text
not_satisfied version_str operator spec =
    version_str ++ " does not satisfy " ++ op_text operator ++ spec

unfoldable pub cannot_evaluate : Operator → String → String
unfolding op_text
cannot_evaluate operator spec = "cannot evaluate: " ++ op_text operator ++ spec

unfoldable pub satisfied : String → SpecifierSet → String
unfolding joined
satisfied version_str spec_set = version_str ++ " satisfies " ++ joined spec_set

unfoldable pub without_wildcard : String → String
unfolding strip_wildcard
without_wildcard spec = elim (strip_wildcard spec) [ some base ↦ base | none ↦ spec ]

unfoldable pub is_blank : String → Bool
is_blank [] = true
is_blank (c ∷ s) = false

unfoldable pub is_equality : Operator → Bool
is_equality equal = true
is_equality not_equal = true
is_equality _ = false

-- A version with no suffix, as a wildcard asks for
unfoldable pub is_plain : Version → Bool
unfolding is_empty
is_plain v = not (is_some v.pre || is_some v.post || is_some v.dev || not (is_empty v.local))

unfoldable pub split_commas : String → List String
split_commas [] = "" ∷ []
split_commas (c ∷ s) = elim (split_commas s) [
  | [] ↦ []
  | part ∷ parts ↦ if code c == code "," then "" ∷ (part ∷ parts) else (c ∷ part) ∷ parts
]

module _ (parse : String → Option Version) where
  unfoldable pub specifier_allows_prereleases : SpecifierSet → Bool
  unfolding without_wildcard is_prerelease
  specifier_allows_prereleases [] = false
  specifier_allows_prereleases ((operator, spec) ∷ rest) =
      let later = specifier_allows_prereleases rest in
      elim (parse (without_wildcard spec)) [
        | none ↦ later
        | some parsed ↦ is_prerelease parsed || later
      ]

  -- The last loop: the answer of the first clause that does not hold
  unfoldable pub first_refusal : SpecifierSet → String → Version → Option String
  unfolding satisfies_single not_satisfied cannot_evaluate
  first_refusal [] version_str v = none
  first_refusal ((operator, spec) ∷ rest) version_str v =
      let later = first_refusal rest version_str v in
      elim (satisfies_single parse operator spec v) [
        | none ↦ some (cannot_evaluate operator spec)
        | some holds ↦ if holds then later else some (not_satisfied version_str operator spec)
      ]

  unfoldable pub satisfies_parsed : SpecifierSet → String → Bool → Version → Bool × String
  unfolding specifier_allows_prereleases first_refusal is_prerelease satisfied
  satisfies_parsed [] version_str include_prerelease v =
      (true, version_str ++ " satisfies (no constraint)")
  satisfies_parsed (clause ∷ rest) version_str include_prerelease v =
      if is_prerelease v
        && not include_prerelease
        && not (specifier_allows_prereleases (clause ∷ rest))
      then (
        false,
        "pre-release " ++ version_str ++ " excluded by default; specifier does not opt in",
      )
      else elim (first_refusal (remaining (clause ∷ rest)) version_str v) [
        | some reason ↦ (false, reason)
        | none ↦ (true, satisfied version_str (clause ∷ rest))
      ]

  unfoldable pub satisfies : SpecifierSet → String → Bool → Bool × String
  unfolding other_text remaining no_clauses satisfies_parsed not_satisfied satisfied
  satisfies spec_set version_str include_prerelease = elim (other_text spec_set version_str) [
    | some spec ↦ (false, not_satisfied version_str arbitrary spec)
    | none ↦
        if not (no_clauses spec_set) && no_clauses (remaining spec_set)
        then (true, satisfied version_str spec_set)
        else elim (parse version_str) [
          | none ↦ (false, "unparseable version: " ++ version_str)
          | some v ↦ satisfies_parsed spec_set version_str include_prerelease v
        ]
  ]

  -- The tests that `parse_specifier_set` makes of a clause
  unfoldable pub is_refused : Operator → String → Bool
  unfolding strip_wildcard is_arbitrary is_equality is_plain
  is_refused operator spec = elim (strip_wildcard spec) [
    | none ↦ false
    | some base ↦
        if is_arbitrary operator
        then false
        else if not (is_equality operator)
        then true
        else elim (parse base) [ none ↦ true | some parsed ↦ not (is_plain parsed) ]
  ]

  -- `parse_specifier_set`, with `str.strip` and the match given, the latter with its second group stripped
  module _ (strip : String → String) (match_clause : String → Option (Operator × String)) where
    unfoldable pub parse_clauses : List String → Option SpecifierSet
    unfolding is_refused is_blank
    parse_clauses [] = some []
    parse_clauses (text ∷ rest) =
        let later = parse_clauses rest in
        if is_blank (strip text) then later else elim (match_clause (strip text)) [
          | none ↦ none
          | some (operator, spec) ↦
              if is_refused operator spec
              then none
              else elim later [ none ↦ none | some specs ↦ some ((operator, spec) ∷ specs) ]
        ]

    unfoldable pub parse_specifier_set : String → Option SpecifierSet
    unfolding parse_clauses split_commas is_blank
    parse_specifier_set text =
        if is_blank (strip text) then some [] else parse_clauses (split_commas (strip text))
