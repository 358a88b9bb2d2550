-- ===== src/Pep440/Clause.antt =====
-- integrations/_pep440.py: single clauses of a specifier. A clause is an operator and its version as written.
use Prim.Native.Nat.{Ordering, lt, eq, gt}
use Prim.Native.String.{[], ◌∷◌}
use text.Mathlib.Text.{◌==◌ as str_eq}
use pyinc.Prelude.{
  ℕ, ◌-◌, Bool, true, false, ◌&&◌, ◌||◌, not, Option, none, some, List, [], ◌∷◌, ◌++◌, String,
  if◌then◌else◌, ltb, ◌==◌, is_some, length, take, replicate,
}
use pyinc.Pep440.Version.{Component, Version, compare_versions}

-- `===`, `~=`, `==`, `!=`, `<=`, `>=`, `<` and `>`
pub data Operator : Type 0 where
  arbitrary compatible equal not_equal at_most at_least less greater : Operator

abbrev pub SpecifierSet : Type 0
SpecifierSet = List (Operator × String)

-- `text[:-2]` of a text that ends in `.*`, and none of another
unfoldable pub strip_wildcard : String → Option String
strip_wildcard [] = none
strip_wildcard (c ∷ s) =
    let rest = strip_wildcard s in
    if str_eq (c ∷ s) ".*" then some [] else elim rest [ none ↦ none | some base ↦ some (c ∷ base) ]

unfoldable pub is_empty : List Component → Bool
is_empty [] = true
is_empty (x ∷ xs) = false

unfoldable pub without_local : Version → Version
unfolding is_empty
without_local v = if is_empty v.local then v else record v { local = [] }

unfoldable pub equal_releases : List ℕ → List ℕ → Bool
equal_releases [] [] = true
equal_releases [] (y ∷ ys) = false
equal_releases (x ∷ xs) [] = false
equal_releases (x ∷ xs) (y ∷ ys) = x == y && equal_releases xs ys

unfoldable pub release_prefix_matches : Version → Version → Bool
unfolding equal_releases
release_prefix_matches spec v =
    if not (v.epoch == spec.epoch)
    then false
    else let prefix = spec.release in
      let truncated = take (length prefix) v.release in
      equal_releases (truncated ++ replicate (length prefix - length truncated) 0) prefix

unfoldable pub is_lt : Ordering → Bool
is_lt lt = true
is_lt eq = false
is_lt gt = false

unfoldable pub is_eq : Ordering → Bool
is_eq lt = false
is_eq eq = true
is_eq gt = false

unfoldable pub is_gt : Ordering → Bool
is_gt lt = false
is_gt eq = false
is_gt gt = true

-- The part of `_satisfies_single` for a clause that ends in `.*`
unfoldable pub satisfies_wildcard : Operator → Version → Version → Option Bool
unfolding is_empty release_prefix_matches
satisfies_wildcard equal spec v =
    if is_some spec.pre || is_some spec.post || is_some spec.dev || not (is_empty spec.local)
    then none
    else some (release_prefix_matches spec v)
satisfies_wildcard not_equal spec v =
    if is_some spec.pre || is_some spec.post || is_some spec.dev || not (is_empty spec.local)
    then none
    else some (not (release_prefix_matches spec v))
satisfies_wildcard _ spec v = none

-- `release[:-1]`
unfoldable pub drop_last : List ℕ → List ℕ
drop_last release = take (length release - 1) release

unfoldable pub compatible_prefix : Version → Version
unfolding drop_last
compatible_prefix spec = record {
  epoch = spec.epoch;
  release = drop_last spec.release;
  pre = none;
  post = none;
  dev = none;
  local = [];
}

unfoldable pub post_base : Version → Version
post_base v = record v { post = none; dev = none; local = [] }

unfoldable pub earliest_prerelease : Version → Version
earliest_prerelease spec = record spec { dev = some 0; local = [] }

unfoldable pub matches_compatible : Version → Version → Option Bool
unfolding without_local compatible_prefix release_prefix_matches is_lt
matches_compatible spec v =
    if ltb (length spec.release) 2
    then none
    else if is_lt (compare_versions (without_local v) spec)
    then some false
    else some (release_prefix_matches (compatible_prefix spec) (without_local v))

unfoldable pub matches_equal : Version → Version → Bool
unfolding is_empty is_eq
matches_equal spec v =
    if not (is_empty spec.local)
    then is_eq (compare_versions v spec)
    else is_eq (compare_versions (record v { local = [] }) spec)

unfoldable pub matches_greater : Version → Version → Bool
unfolding is_empty is_gt is_eq post_base without_local
matches_greater spec v =
    if not (is_gt (compare_versions v spec))
    then false
    else if is_some v.post && not (is_some spec.post) && is_eq (compare_versions (post_base v) spec)
    then false
    else not (not (is_empty v.local) && is_eq (compare_versions (without_local v) spec))

unfoldable pub matches_less : Version → Version → Bool
unfolding is_lt earliest_prerelease
matches_less spec v =
    if not (is_lt (compare_versions v spec))
    then false
    else if not (is_some spec.pre || is_some spec.dev)
        && (is_some v.pre || is_some v.dev)
        && not (is_lt (compare_versions v (earliest_prerelease spec)))
    then false
    else true

unfoldable pub matches_at_least : Version → Version → Bool
unfolding without_local is_lt
matches_at_least spec v = not (is_lt (compare_versions (without_local v) spec))

unfoldable pub matches_at_most : Version → Version → Bool
unfolding without_local is_gt
matches_at_most spec v = not (is_gt (compare_versions (without_local v) spec))

-- The part of `_satisfies_single` for another clause
unfoldable pub satisfies_version : Operator → Version → Version → Option Bool
unfolding matches_compatible matches_equal matches_greater matches_less matches_at_least
    matches_at_most
satisfies_version arbitrary spec v = none
satisfies_version compatible spec v = matches_compatible spec v
satisfies_version equal spec v = some (matches_equal spec v)
satisfies_version not_equal spec v = some (not (matches_equal spec v))
satisfies_version at_least spec v = some (matches_at_least spec v)
satisfies_version at_most spec v = some (matches_at_most spec v)
satisfies_version greater spec v = some (matches_greater spec v)
satisfies_version less spec v = some (matches_less spec v)

-- `parse` is `parse_version` with Python's regular expressions in it.
module _ (parse : String → Option Version) where
  unfoldable pub satisfies_single : Operator → String → Version → Option Bool
  unfolding strip_wildcard satisfies_wildcard satisfies_version
  satisfies_single operator spec v = elim (strip_wildcard spec) [
    | some base ↦ elim (parse base) [
      | none ↦ none
      | some parsed ↦ satisfies_wildcard operator parsed v
    ]
    | none ↦ elim (parse spec) [ none ↦ none | some parsed ↦ satisfies_version operator parsed v ]
  ]
