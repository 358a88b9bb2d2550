-- ===== src/Pep440/Tests.antt =====
-- Versions and clauses on which the theorems are applied. The parser knows four texts.
use Prim.Native.Nat.{Ordering, lt, gt}
use text.Mathlib.Text.{◌==◌ as str_eq}
use pyinc.Prelude.{
  ℕ, ◌≡◌, ◌≢◌, refl, arith, ◌↔◌, true, false, ◌&&◌, ◌||◌, not, Option, none, some, List, [], ◌∷◌,
  ◌++◌, replicate, String, if◌then◌else◌, All, is_some,
}
use pyinc.Pep440.Order.{then}
use pyinc.Pep440.Version.{number, word, Version, compare_versions}
use pyinc.Pep440.Compare.{version_order, compare_versions-order}
use pyinc.Pep440.Clause.{
  Operator, arbitrary, compatible, equal, not_equal, at_least, SpecifierSet, without_local,
  release_prefix_matches, satisfies_version,
}
use pyinc.Pep440.Prefix.{release_prefix_matches_iff, compatible_iff}
use pyinc.Pep440.Specifier.{
  satisfies, parse_specifier_set, no_clauses, remaining, is_prerelease,
  specifier_allows_prereleases,
}
use pyinc.Pep440.Policy.{
  ambiguous, satisfied_status, check_version_constraints, check_version_constraints-all_hold,
}
use pyinc.Pep440.SetLaws.{all_hold, is_supported, satisfies-all_hold, parse_specifier_set-supported}

abbrev plain : List ℕ → Version
plain release = record {
  epoch = 0;
  release = release;
  pre = none;
  post = none;
  dev = none;
  local = [];
}

-- 1.2, 1.2.0, 1.10, 1.10rc1 and 1.2+ab.3
abbrev v1_2 : Version
v1_2 = plain (1 ∷ 2 ∷ [])

abbrev v1_2_0 : Version
v1_2_0 = plain (1 ∷ 2 ∷ 0 ∷ [])

abbrev v1_10 : Version
v1_10 = plain (1 ∷ 10 ∷ [])

abbrev v1_10rc1 : Version
v1_10rc1 = record v1_10 { pre = some ("rc", 1) }

abbrev v1_2_local : Version
v1_2_local = record v1_2 { local = word "ab" ∷ number 3 ∷ [] }

abbrev parse : String → Option Version
parse text =
    if str_eq text "1.2"
    then some v1_2
    else if str_eq text "1.10"
    then some v1_10
    else if str_eq text "1.10rc1"
    then some v1_10rc1
    else if str_eq text "1.2+ab.3"
    then some v1_2_local
    else none

abbrev match_clause : String → Option (Operator × String)
match_clause text =
    if str_eq text "==1.2.*"
    then some (equal, "1.2.*")
    else if str_eq text ">=1.2"
    then some (at_least, "1.2")
    else none

compare_sample : compare_versions v1_2_0 v1_10 ≡ lt
unfolding compare_versions pyinc.Pep440.Order.compare_pair pyinc.Pep440.Order.compare_list
    pyinc.Pep440.Order.compare_text
compare_sample = refl

compare_local : compare_versions v1_2_local v1_2 ≡ gt
unfolding compare_versions pyinc.Pep440.Order.compare_pair pyinc.Pep440.Order.compare_list
    pyinc.Pep440.Order.compare_text
compare_local = refl

rc_before : compare_versions v1_10rc1 v1_10 ≡ lt
unfolding compare_versions pyinc.Pep440.Order.compare_pair pyinc.Pep440.Order.compare_list
    pyinc.Pep440.Order.compare_text
rc_before = refl

before_rc : compare_versions v1_2_0 v1_10rc1 ≡ lt
unfolding compare_versions pyinc.Pep440.Order.compare_pair pyinc.Pep440.Order.compare_list
    pyinc.Pep440.Order.compare_text
before_rc = refl

public_before : compare_versions (without_local v1_2_local) (without_local v1_10) ≡ lt
unfolding compare_versions without_local pyinc.Pep440.Order.compare_pair
    pyinc.Pep440.Order.compare_list pyinc.Pep440.Order.compare_text
public_before = refl

not_above : (o : Ordering) → o ≡ lt → o ≢ gt
not_above o h e = absurd cc

compare_versions-order_example : compare_versions v1_2_0 v1_10 ≡ version_order.cmp v1_2_0 v1_10
compare_versions-order_example = compare_versions-order v1_2_0 v1_10

release_prefix_matches_iff_example : (release_prefix_matches v1_2_0 v1_2 ≡ true) ↔ (
    (v1_2.epoch ≡ v1_2_0.epoch)
    × ((fill : ℕ) × ((rest : List ℕ) × ((1 ∷ 2 ∷ []) ++ replicate fill 0
            ≡ (1 ∷ 2 ∷ 0 ∷ []) ++ rest))))
release_prefix_matches_iff_example = release_prefix_matches_iff v1_2_0 v1_2

compatible_iff_example :
    (is_some (satisfies_version compatible v1_2 v1_10) ≡ true)
    × ((satisfies_version compatible v1_2 v1_10 ≡ some true) ↔ (
        (satisfies_version at_least v1_2 v1_10 ≡ some true)
        × ((v1_10.epoch ≡ v1_2.epoch)
            × ((fill : ℕ) × ((rest : List ℕ) × (v1_10.release ++ replicate fill 0
                    ≡ (1 ∷ []) ++ rest))))))
compatible_iff_example = compatible_iff v1_2 v1_10 (1 ∷ []) 2 refl (omega arith)

abbrev clauses : SpecifierSet
clauses = (at_least, "1.2") ∷ (not_equal, "1.2.*") ∷ []

satisfies-all_hold_example : (satisfies parse clauses "1.10rc1" false).0 ≡ (
    all_hold parse clauses "1.10rc1" v1_10rc1
    && (no_clauses (remaining clauses)
        || not (is_prerelease v1_10rc1)
        || false
        || specifier_allows_prereleases parse clauses))
satisfies-all_hold_example = satisfies-all_hold parse clauses "1.10rc1" false v1_10rc1 refl

parse_specifier_set-supported_example :
    All
      (λ clause. is_supported parse v1_10 clause ≡ true)
      ((equal, "1.2.*") ∷ (at_least, "1.2") ∷ [])
unfolding parse_specifier_set
parse_specifier_set-supported_example =
    parse_specifier_set-supported parse (λ text. text) match_clause v1_10 "==1.2.*,>=1.2"
      ((equal, "1.2.*") ∷ (at_least, "1.2") ∷ []) refl

check_version_constraints-all_hold_example :
    ((check_version_constraints parse (λ text. text) match_clause "==1.2.*,>=1.2" "1.10").0
      ≡ satisfied_status)
    ↔ (all_hold parse ((equal, "1.2.*") ∷ (at_least, "1.2") ∷ []) "1.10" v1_10 ≡ true)
unfolding parse_specifier_set
check_version_constraints-all_hold_example =
    check_version_constraints-all_hold parse (λ text. text) match_clause "==1.2.*,>=1.2" "1.10"
      ((equal, "1.2.*") ∷ (at_least, "1.2") ∷ []) v1_10 refl refl

-- A `===` clause that fails is reported as ambiguous if its text has one of the words looked for.
misreported :
    (check_version_constraints parse
      (λ text. text)
      (λ text. some (arbitrary, "unparseable"))
      "===unparseable"
      "1.2").0
    ≡ ambiguous
unfolding check_version_constraints satisfies
misreported = refl
