-- ===== src/Pep440/SetLaws.antt =====
-- Specifier sets against their clauses, and what the parser of sets lets through.
use mathlib.Core.Path.{subst}
use text.Mathlib.Text.{◌==◌ as str_eq}
use pyinc.Prelude.{
  ◌≡◌, refl, sym, arith, Bool, true, false, ◌&&◌, ◌||◌, not, Option, none, some, List, [], ◌∷◌,
  String, is_some, All, Option-cases, Bool-cases, inl, inr, ◌⊎◌, if◌then◌else◌,
}
use pyinc.Pep440.Version.{Version}
use pyinc.Pep440.Clause.{
  Operator, SpecifierSet, strip_wildcard, satisfies_wildcard, satisfies_single,
}
use pyinc.Pep440.Specifier.{
  is_arbitrary, other_text, remaining, no_clauses, is_prerelease, specifier_allows_prereleases,
  first_refusal, satisfies_parsed, satisfies, is_equality, is_plain, is_refused, parse_clauses,
  split_commas, parse_specifier_set, is_blank,
}

unfoldable pub yes : Option Bool → Bool
yes none = false
yes (some b) = b

module _ (parse : String → Option Version) where
  -- A clause by itself: `===` compares texts, the others versions.
  unfoldable pub holds : Operator → String → String → Version → Bool
  unfolding yes is_arbitrary
  holds operator spec version_str v =
      if is_arbitrary operator
      then str_eq version_str spec
      else yes (satisfies_single parse operator spec v)

  unfoldable pub all_hold : SpecifierSet → String → Version → Bool
  unfolding holds
  all_hold [] version_str v = true
  all_hold ((operator, spec) ∷ rest) version_str v =
      holds operator spec version_str v && all_hold rest version_str v

  text_loop :
      (operator : Operator) (spec : String) (rest : SpecifierSet) (version_str : String)
      → not (is_some (other_text ((operator, spec) ∷ rest) version_str)) ≡ (
          (not (is_arbitrary operator) || str_eq version_str spec)
          && not (is_some (other_text rest version_str)))
  unfolding other_text
  text_loop operator spec rest version_str = ground arith

  version_step :
      (operator : Operator) (spec : String) (rest : SpecifierSet) (version_str : String)
      (v : Version)
      → not (is_some (first_refusal parse ((operator, spec) ∷ rest) version_str v)) ≡ (
          yes (satisfies_single parse operator spec v)
          && not (is_some (first_refusal parse rest version_str v)))
  unfolding first_refusal yes
  version_step operator spec rest version_str v =
      elim (Option-cases (satisfies_single parse operator spec v)) [
        | inl e ↦ rw (e, first_refusal) refl
        | inr (b, e) ↦ rw (e, first_refusal) (ground arith)
      ]

  version_loop :
      (operator : Operator) (spec : String) (rest : SpecifierSet) (version_str : String)
      (v : Version)
      → not (is_some (first_refusal parse (remaining ((operator, spec) ∷ rest)) version_str v)) ≡ (
          (is_arbitrary operator || yes (satisfies_single parse operator spec v))
          && not (is_some (first_refusal parse (remaining rest) version_str v)))
  unfolding remaining
  version_loop operator spec rest version_str v = elim (Bool-cases (is_arbitrary operator)) [
    | inl e ↦ rw (e) refl
    | inr e ↦ rw (e) (version_step operator spec (remaining rest) version_str v)
  ]

  loops-all_hold :
      (set : SpecifierSet) (version_str : String) (v : Version)
      → (not (is_some (other_text set version_str))
          && not (is_some (first_refusal parse (remaining set) version_str v)))
        ≡ all_hold set version_str v
  unfolding all_hold other_text remaining first_refusal holds
  loops-all_hold [] version_str v = refl
  loops-all_hold ((operator, spec) ∷ rest) version_str v =
      rw
        (
          text_loop operator spec rest version_str,
          version_loop operator spec rest version_str v,
          sym (loops-all_hold rest version_str v),
        )
        (ground arith)

  empty_loop :
      (set : SpecifierSet) (version_str : String) (v : Version)
      → (not (no_clauses set) || not (is_some (first_refusal parse set version_str v))) ≡ true
  unfolding first_refusal no_clauses
  empty_loop [] version_str v = refl
  empty_loop (clause ∷ rest) version_str v = refl

  -- For every set of clauses and every version text that parses to v, the answer of `satisfies` is yes exactly
  -- where every clause holds by itself and v is no pre-release, or pre-releases are included, or a clause
  -- names one, or there is no clause but `===` ones.
  pub satisfies-all_hold :
      (set : SpecifierSet) (version_str : String) (include_prerelease : Bool) (v : Version)
      → parse version_str ≡ some v
      → (satisfies parse set version_str include_prerelease).0 ≡ (
          all_hold set version_str v
          && (no_clauses (remaining set)
              || not (is_prerelease v)
              || include_prerelease
              || specifier_allows_prereleases parse set))
  unfolding satisfies satisfies_parsed all_hold
  satisfies-all_hold [] version_str include_prerelease v h = rw (h, satisfies, all_hold) refl
  satisfies-all_hold (clause ∷ rest) version_str include_prerelease v h = ground (
    arith,
    h,
    loops-all_hold (clause ∷ rest) version_str v,
    empty_loop (remaining (clause ∷ rest)) version_str v,
  )

  -- The wildcard clauses are evaluated, except `===` ones, which compare texts.
  unfoldable pub is_supported : Version → Operator × String → Bool
  is_supported v (operator, spec) =
      is_arbitrary operator
      || not (is_some (strip_wildcard spec))
      || is_some (satisfies_single parse operator spec v)

  accepted-supported :
      (v : Version) (operator : Operator) (spec : String)
      → is_refused parse operator spec ≡ false
      → is_supported v (operator, spec) ≡ true
  unfolding is_supported is_refused satisfies_single satisfies_wildcard is_plain is_equality
      is_arbitrary
  accepted-supported v operator spec h = ground arith

  IsSupportedSet : Version → Option SpecifierSet → Type 0
  IsSupportedSet v none = Unit
  IsSupportedSet v (some set) = All (λ clause. is_supported v clause ≡ true) set

  IsSupportedSet-cons :
      (v : Version) (clause : Operator × String) (later : Option SpecifierSet)
      → is_supported v clause ≡ true
      → IsSupportedSet v later
      → IsSupportedSet v (elim later [ none ↦ none | some specs ↦ some (clause ∷ specs) ])
  unfolding IsSupportedSet
  IsSupportedSet-cons v clause none h hs = tt
  IsSupportedSet-cons v clause (some specs) h hs = (h, hs)

  module _ (strip : String → String) (match_clause : String → Option (Operator × String)) where
    clauses-supported :
        (v : Version) (texts : List String)
        → IsSupportedSet v (parse_clauses parse strip match_clause texts)
    unfolding parse_clauses IsSupportedSet
    clauses-supported v [] = tt
    clauses-supported v (text ∷ rest) = elim (Bool-cases (is_blank (strip text))) [
      | inl e ↦ rw (e, parse_clauses) (clauses-supported v rest)
      | inr e ↦ elim (Option-cases (match_clause (strip text))) [
        | inl m ↦ rw (e, m, parse_clauses) tt
        | inr ((operator, spec), m) ↦ elim (Bool-cases (is_refused parse operator spec)) [
          | inl r ↦ rw (e, m, r, parse_clauses) tt
          | inr r ↦
              rw (e, m, r, parse_clauses)
                (IsSupportedSet-cons v (operator, spec)
                  (parse_clauses parse strip match_clause rest)
                  (accepted-supported v operator spec r) (clauses-supported v rest))
        ]
      ]
    ]

    -- In a set that `parse_specifier_set` returns, for any text, every clause that ends in `.*` gets a yes or no
    -- from `_satisfies_single`, or is a `===` clause.
    pub parse_specifier_set-supported :
        (v : Version) (text : String) (set : SpecifierSet)
        → parse_specifier_set parse strip match_clause text ≡ some set
        → All (λ clause. is_supported v clause ≡ true) set
    unfolding parse_specifier_set IsSupportedSet
    parse_specifier_set-supported v text set h =
        subst (IsSupportedSet v) h (parsed (Bool-cases (is_blank (strip text))))
      where
        parsed :
            (is_blank (strip text) ≡ true) ⊎ (is_blank (strip text) ≡ false)
            → IsSupportedSet v (parse_specifier_set parse strip match_clause text)
        parsed (inl e) = rw (e, parse_specifier_set) tt
        parsed (inr e) =
            rw (e, parse_specifier_set) (clauses-supported v (split_commas (strip text)))
