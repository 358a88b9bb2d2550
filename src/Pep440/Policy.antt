-- ===== src/Pep440/Policy.antt =====
-- integrations/_version_policy.py: the check of an installed version against a declared specifier.
use Prim.Native.Char.{code}
use Prim.Native.String.{[], ◌∷◌, ◌++◌}
use pyinc.Prelude.{
  Bool, true, false, not, ◌&&◌, ◌||◌, ◌≡◌, refl, sym, ◌∙◌, ◌↔◌, arith, Option, none, some, [], ◌∷◌,
  String, if◌then◌else◌, ◌==◌,
}
use pyinc.Pep440.Version.{Version}
use pyinc.Pep440.Clause.{Operator, SpecifierSet}
use pyinc.Pep440.Specifier.{
  satisfies, parse_specifier_set, no_clauses, remaining, is_prerelease,
  specifier_allows_prereleases,
}
use pyinc.Pep440.SetLaws.{all_hold, satisfies-all_hold}

pub data Status : Type 0 where
  ambiguous version_mismatch satisfied_status : Status

unfoldable pub begins : String → String → Bool
begins [] text = true
begins (c ∷ part) [] = false
begins (c ∷ part) (d ∷ text) = code c == code d && begins part text

-- `part in text`
unfoldable pub contains : String → String → Bool
unfolding begins
contains part [] = begins part []
contains part (c ∷ text) = begins part (c ∷ text) || contains part text

module _ (parse : String → Option Version) (strip : String → String)
    (match_clause : String → Option (Operator × String)) where
  unfoldable pub with_answer : Bool × String → Status × String
  unfolding contains
  with_answer (true, detail) = (satisfied_status, detail)
  with_answer (false, detail) =
      if contains "unparseable" detail || contains "cannot evaluate" detail
      then (ambiguous, detail)
      else (version_mismatch, detail)

  unfoldable pub check_version_constraints : String → String → Status × String
  unfolding parse_specifier_set satisfies with_answer
  check_version_constraints declared_spec installed_version =
      elim (parse_specifier_set parse strip match_clause declared_spec) [
        | none ↦ (ambiguous, "cannot parse specifier: " ++ declared_spec)
        | some spec_set ↦ with_answer (satisfies parse spec_set installed_version true)
      ]

  with_answer-satisfied :
      (answer : Bool × String) → ((with_answer answer).0 ≡ satisfied_status) ↔ (answer.0 ≡ true)
  unfolding with_answer
  with_answer-satisfied (true, detail) = (λ h. refl, λ h. refl)
  with_answer-satisfied (false, detail) = (λ h. ground arith, λ h. absurd cc)

  all_included :
      (set : SpecifierSet) (version_str : String) (v : Version)
      → parse version_str ≡ some v
      → (satisfies parse set version_str true).0 ≡ all_hold parse set version_str v
  all_included set version_str v h =
      satisfies-all_hold parse set version_str true v h
      ∙ included (all_hold parse set version_str v) (no_clauses (remaining set))
          (not (is_prerelease v)) (specifier_allows_prereleases parse set)
    where
      included : (a b c d : Bool) → (a && (b || c || true || d)) ≡ a
      included a b c d = ground arith

  answered :
      (declared_spec installed_version : String) (set : SpecifierSet)
      → parse_specifier_set parse strip match_clause declared_spec ≡ some set
      → check_version_constraints declared_spec installed_version
        ≡ with_answer (satisfies parse set installed_version true)
  unfolding check_version_constraints
  answered declared_spec installed_version set h = rw (h, check_version_constraints) refl

  -- Where the declared specifier parses to a set of clauses and the installed version to v, the status is
  -- "satisfied" exactly where every clause holds by itself, for a pre-release too.
  pub check_version_constraints-all_hold :
      (declared_spec installed_version : String) (set : SpecifierSet) (v : Version)
      → parse_specifier_set parse strip match_clause declared_spec ≡ some set
      → parse installed_version ≡ some v
      → ((check_version_constraints declared_spec installed_version).0 ≡ satisfied_status)
        ↔ (all_hold parse set installed_version v ≡ true)
  check_version_constraints-all_hold declared_spec installed_version set v h k =
      rw
        (
          answered declared_spec installed_version set h,
          sym (all_included set installed_version v k),
        )
        (with_answer-satisfied (satisfies parse set installed_version true))
