-- ===== src/Pep440/Prefix.antt =====
-- Prefix matching of releases, and the operator `~=` that uses it.
use pyinc.Prelude.{
  ℕ, zero, suc, ◌-◌, ◌≤◌, ◌≡◌, refl, sym, ap, ◌∙◌, arith, ◌↔◌, true, ◌&&◌, none, some, List, [],
  ◌∷◌, ◌++◌, length, take, replicate, length-append, is_some,
}
use mathlib.Core.List.{append-nil}
use pyinc.Pep440.Version.{Version}
use pyinc.Pep440.Clause.{
  compatible, at_least, drop_last, equal_releases, release_prefix_matches, satisfies_version,
  compatible_prefix, matches_compatible, matches_at_least,
}
use pyinc.Pep440.ClauseLaws.{without_local-local}

-- The release cut to the length of a prefix, or filled up to it.
unfoldable cut : List ℕ → List ℕ → List ℕ
cut prefix release =
    take (length prefix) release
    ++ replicate (length prefix - length (take (length prefix) release)) 0

-- With zeros after it, a release goes on from a prefix.
HasPrefix : List ℕ → List ℕ → Type 0
HasPrefix prefix release =
    (fill : ℕ) × ((rest : List ℕ) × (release ++ replicate fill 0 ≡ prefix ++ rest))

take-nil : (n : ℕ) → take {A = ℕ} n [] ≡ []
take-nil zero = refl
take-nil (suc n) = refl

less_nothing : (n : ℕ) → n - 0 ≡ n
less_nothing n = omega arith

cut-nil : (x : ℕ) (prefix : List ℕ) → cut (x ∷ prefix) [] ≡ 0 ∷ cut prefix []
unfolding cut
cut-nil x prefix =
    ap (λ n. replicate n 0) (less_nothing (suc (length prefix)))
    ∙ ap (λ n. 0 ∷ replicate n 0) (sym (less_nothing (length prefix)))
    ∙ ap (λ l. 0 ∷ l ++ replicate (length prefix - length l) 0) (sym (take-nil (length prefix)))

cut-cons :
    (x y : ℕ) (prefix release : List ℕ) → cut (x ∷ prefix) (y ∷ release) ≡ y ∷ cut prefix release
unfolding cut
cut-cons x y prefix release =
    ap (λ n. y ∷ take (length prefix) release ++ replicate n 0) (omega arith)

equal-first :
    (x y : ℕ) (xs ys : List ℕ)
    → equal_releases (x ∷ xs) (y ∷ ys) ≡ true
    → (x ≡ y) × (equal_releases xs ys ≡ true)
unfolding equal_releases
equal-first x y xs ys h = (ground arith, ground arith)

equal-both :
    (x y : ℕ) (xs ys : List ℕ)
    → x ≡ y
    → equal_releases xs ys ≡ true
    → equal_releases (x ∷ xs) (y ∷ ys) ≡ true
unfolding equal_releases
equal-both x y xs ys e h = ground arith

equal-HasPrefix :
    (prefix release : List ℕ)
    → equal_releases (cut prefix release) prefix ≡ true
    → HasPrefix prefix release
unfolding HasPrefix
equal-HasPrefix [] release h = (0, (release, append-nil release))
equal-HasPrefix (x ∷ prefix) [] h =
    let both = equal-first 0 x (cut prefix []) prefix (rw⁻¹ (cut-nil x prefix) h) in
    let rest = equal-HasPrefix prefix [] both.1 in
    (suc rest.0, (rest.1.0, ap (λ l. 0 ∷ l) rest.1.1 ∙ ap (λ z. z ∷ prefix ++ rest.1.0) both.0))
equal-HasPrefix (x ∷ prefix) (y ∷ release) h =
    let both = equal-first y x (cut prefix release) prefix (rw⁻¹ (cut-cons x y prefix release) h) in
    let rest = equal-HasPrefix prefix release both.1 in
    (rest.0, (rest.1.0, ap (λ l. y ∷ l) rest.1.1 ∙ ap (λ z. z ∷ prefix ++ rest.1.0) both.0))

cut-none : (release : List ℕ) → equal_releases (cut [] release) [] ≡ true
unfolding equal_releases cut
cut-none release = refl

HasPrefix-equal :
    (prefix release : List ℕ) (fill : ℕ) (rest : List ℕ)
    → release ++ replicate fill 0 ≡ prefix ++ rest
    → equal_releases (cut prefix release) prefix ≡ true
HasPrefix-equal [] release fill rest h = cut-none release
HasPrefix-equal (x ∷ prefix) [] zero rest h = absurd cc
HasPrefix-equal (x ∷ prefix) [] (suc n) rest h =
    rw (cut-nil x prefix)
      (equal-both 0 x (cut prefix []) prefix (cc) (HasPrefix-equal prefix [] n rest (cc)))
HasPrefix-equal (x ∷ prefix) (y ∷ release) fill rest h = rw (cut-cons x y prefix release) (
    equal-both y x (cut prefix release) prefix (cc) (HasPrefix-equal prefix release fill rest (cc)))

-- A version matches a prefix clause exactly where the epochs are equal and its release, with enough zeros after
-- it, begins with the release of the clause, whatever follows.
pub release_prefix_matches_iff :
    (w v : Version)
    → (release_prefix_matches w v ≡ true) ↔ (
        (v.epoch ≡ w.epoch)
        × ((fill : ℕ) × ((rest : List ℕ) × (v.release ++ replicate fill 0 ≡ w.release ++ rest))))
unfolding release_prefix_matches cut HasPrefix
release_prefix_matches_iff w v = (
  λ h. (ground arith, equal-HasPrefix w.release v.release (ground arith)),
  λ h. ground (arith, h.0, HasPrefix-equal w.release v.release h.1.0 h.1.1.0 h.1.1.1),
)

take-append : (xs ys : List ℕ) → take (length xs) (xs ++ ys) ≡ xs
take-append [] ys = refl
take-append (x ∷ xs) ys = ap (λ l. x ∷ l) (take-append xs ys)

drop_last-append : (xs : List ℕ) (d : ℕ) → drop_last (xs ++ (d ∷ [])) ≡ xs
unfolding drop_last
drop_last-append xs d =
    ap (λ n. take n (xs ++ (d ∷ []))) (omega (arith, length-append xs (d ∷ [])))
    ∙ take-append xs (d ∷ [])

-- What `~=` computes, in terms of `>=` and of a wildcard match
compatible-both :
    (w v : Version)
    → 2 ≤ length w.release
    → satisfies_version compatible w v ≡ (elim (satisfies_version at_least w v) [
      | none ↦ none
      | some b ↦ some (b && release_prefix_matches (compatible_prefix w) v)
    ])
unfolding satisfies_version matches_compatible matches_at_least compatible_prefix
    release_prefix_matches
compatible-both w v h = rw (without_local-local v) (ground arith)

-- `~= V.N` is `>= V.N, == V.*`: for a clause version w whose release is the numbers xs, at least one, and then one
-- number more, and for any version v, `~=` has an answer, and the answer is yes exactly where `>=` says yes, the epochs
-- are equal and the release of v, with enough zeros after it, begins with xs, whatever follows.
pub compatible_iff :
    (w v : Version) (xs : List ℕ) (d : ℕ)
    → w.release ≡ xs ++ (d ∷ [])
    → 1 ≤ length xs
    → (is_some (satisfies_version compatible w v) ≡ true)
      × ((satisfies_version compatible w v ≡ some true) ↔ (
          (satisfies_version at_least w v ≡ some true)
          × ((v.epoch ≡ w.epoch)
              × ((fill : ℕ) × ((rest : List ℕ) × (v.release ++ replicate fill 0 ≡ xs ++ rest))))))
unfolding satisfies_version compatible_prefix
compatible_iff w v xs d e h =
    let long : 2 ≤ length w.release =
      omega (arith, ap (λ l. length l) e, length-append xs (d ∷ [])) in
    let cut_off : drop_last w.release ≡ xs = ap drop_last e ∙ drop_last-append xs d in
    let prefix = compatible_prefix w in
    let matches = release_prefix_matches_iff prefix v in
    let answer = compatible-both w v long in
    (
      ground (arith, answer),
      (
        λ yes_.
            let m = matches.0 (ground (arith, answer, yes_)) in
            (
              ground (arith, answer, yes_),
              (m.0, (m.1.0, (m.1.1.0, m.1.1.1 ∙ ap (λ l. l ++ m.1.1.0) cut_off))),
            ),
        λ (low, (epochs, (fill, (rest, r)))). ground (
          arith,
          answer,
          low,
          matches.1 (epochs, (fill, (rest, r ∙ ap (λ l. l ++ rest) (sym cut_off)))),
        ),
      ),
    )
