-- ===== src/Pep440/ClauseLaws.antt =====
-- How the operators of a clause relate to each other.
use Prim.Native.Nat.{Ordering, compare, lt, eq, gt}
use pyinc.Prelude.{
  ◌≡◌, ◌≢◌, refl, arith, ◌⊎◌, inl, inr, Bool, true, false, ◌&&◌, ◌||◌, not, Option, none, some,
  List, [], ◌∷◌, String,
}
use pyinc.Pep440.Order.{then, nat_order, pair_order, text_order, compare_list, compare_pair}
use pyinc.Pep440.Version.{
  Component, Version, compare_versions, suffix_key, local_key, pre_key, post_key, dev_key,
}
use pyinc.Pep440.Compare.{full_key, compare_padded, compare_versions-order, compare_versions_trans}
use pyinc.Pep440.Clause.{
  is_empty, without_local, is_lt, is_eq, is_gt, satisfies_wildcard, matches_equal, matches_greater,
  matches_less, matches_at_least, matches_at_most, satisfies_version, satisfies_single, equal,
  not_equal,
}

abbrev pub negated : Option Bool → Option Bool
negated none = none
negated (some b) = some (not b)

-- For every clause text and version, whatever the parser, the answer of `!=` is the opposite of the answer of
-- `==`, and one is unsupported exactly where the other is.
pub satisfies_single-not_equal :
    (parse : String → Option Version) (spec : String) (v : Version)
    → satisfies_single parse not_equal spec v ≡ negated (satisfies_single parse equal spec v)
unfolding satisfies_single satisfies_wildcard satisfies_version
satisfies_single-not_equal parse spec v = ground arith

without-local :
    (v : Version) (l : List Component)
    → without_local (record v { local = l }) ≡ record v { local = [] }
unfolding without_local is_empty
without-local v [] = refl
without-local v (x ∷ l) = refl

pub without_local-local : (v : Version) → without_local v ≡ record v { local = [] }
without_local-local v = without-local v v.local

-- Two comparisons are the same, or the first is above where the second is equal.
IsRaised : Ordering → Ordering → Type 0
IsRaised o o' = (o ≡ o') ⊎ ((o ≡ gt) × (o' ≡ eq))

then-IsRaised : (c o o' : Ordering) → IsRaised o o' → IsRaised (then c o) (then c o')
unfolding IsRaised
then-IsRaised lt o o' h = inl refl
then-IsRaised eq o o' h = h
then-IsRaised gt o o' h = inl refl

-- A local segment raises a version against one that has none only from equal to above.
compare-local-IsRaised :
    (v w : Version) (l : List Component)
    → w.local ≡ []
    → IsRaised
        (compare_versions (record v { local = l }) w)
        (compare_versions (record v { local = [] }) w)
unfolding compare_list compare_pair full_key suffix_key local_key pre_key post_key dev_key is_empty
    IsRaised
compare-local-IsRaised v w [] h = inl refl
compare-local-IsRaised v w (x ∷ l) h =
    rw
      (
        compare_versions-order (record v { local = x ∷ l }) w,
        compare_versions-order (record v { local = [] }) w,
      )
      (rw h (
        then-IsRaised (compare v.epoch w.epoch) _ _ (
          then-IsRaised (compare_padded v.release w.release) _ _ (
            then-IsRaised
              ((pair_order nat_order (pair_order text_order nat_order)).cmp (pre_key v) (pre_key w))
              _ _
              (then-IsRaised ((pair_order nat_order nat_order).cmp (post_key v) (post_key w)) _ _ (
                then-IsRaised ((pair_order nat_order nat_order).cmp (dev_key v) (dev_key w)) gt eq
                  (inr (refl, refl))))))))

-- For every clause version w without a local segment and every version v, `>=` or `<=` holds, and both hold
-- exactly where `==` does.
pub at_least-at_most :
    (w v : Version)
    → w.local ≡ []
    → ((matches_at_least w v || matches_at_most w v) ≡ true)
      × (matches_equal w v ≡ (matches_at_least w v && matches_at_most w v))
unfolding matches_at_least matches_at_most matches_equal is_lt is_gt is_eq
at_least-at_most w v h = rw (without_local-local v, h, is_empty) (ground arith)

-- For every clause version w without a local segment and every version v: where `>` holds, `>=` does and `==`
-- does not, and where `<` holds, `<=` does and `==` does not.
pub strict-inclusive :
    (w v : Version)
    → w.local ≡ []
    → ((matches_greater w v ≡ false)
        ⊎ ((matches_at_least w v ≡ true) × (matches_equal w v ≡ false)))
      × ((matches_less w v ≡ false) ⊎ ((matches_at_most w v ≡ true) × (matches_equal w v ≡ false)))
unfolding matches_at_least matches_at_most matches_equal matches_greater matches_less is_lt is_gt
    is_eq IsRaised
strict-inclusive w v h =
    rw (without_local-local v, h, is_empty) (ground (arith, compare-local-IsRaised v w v.local h))

-- For every clause version w: `>=` holds of each version whose public part is not below the public part of
-- one that it holds of, and `<=` the other way round.
pub at_least-upward :
    (w u v : Version)
    → compare_versions (without_local u) (without_local v) ≢ gt
    → ((matches_at_least w u ≡ false) ⊎ (matches_at_least w v ≡ true))
      × ((matches_at_most w v ≡ false) ⊎ (matches_at_most w u ≡ true))
unfolding matches_at_least matches_at_most is_lt is_gt
at_least-upward w u v h =
    ground (arith, compare_versions_trans (without_local u) (without_local v) w h)
