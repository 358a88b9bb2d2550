-- ===== src/Value/Graphs.antt =====
-- value.py, `_validate_snapshot`: the nodes of a graph against those that its root reaches.
use pyinc.Prelude.{
  ℕ, zero, suc, ◌+◌, ◌≤◌, ◌<◌, ◌≡◌, refl, sym, ◌∙◌, ap, true, false, none, some, List, [], ◌∷◌,
  length, arith, ◌&&◌, &&-true, Bool-cases, Bool, inl, inr, ◌↔◌, Option, ltb, ◌==◌,
}
use pyinc.Value.Snapshot.{Scalars, Snapshot, Items, no_items, item, frozen_graph}
use pyinc.Value.Encode.{count_items}
use pyinc.Value.Reach.{contains, extend_pending, reach, ref_count, Reached}
use pyinc.Value.Reachable.{Found, reach_lem}
use pyinc.Value.Classes.{Numbers}
use pyinc.Value.Checks.{
  Invalid, unreachable_nodes, require, snapshot_refs, indices, node_refs, has_all, all_below,
  check_reachable, compare_nodes,
}
use pyinc.Value.Validate.{walk}
use pyinc.Value.Valid.{seq-none, require-none}

has_all_iff : (n : ℕ) (r : List ℕ) → (has_all n r ≡ true) ↔ ((i : ℕ) → i < n → contains i r ≡ true)
unfolding has_all
has_all_iff zero r = (λ h i lt. absurd (omega (arith, lt)), λ h. refl)
has_all_iff (suc n) r = (
  λ h i lt. elim (Bool-cases (i == n)) [
    | inl same ↦
        let e : i ≡ n = ground (arith, same) in
        ap (λ x. contains x r) e ∙ (&&-true (contains n r) (has_all n r) h).0
    | inr other ↦
        (has_all_iff n r).0 (&&-true (contains n r) (has_all n r) h).1 i (ground (arith, other))
  ],
  λ h. ground (arith, h n (omega arith), (has_all_iff n r).1 (λ i lt. h i (omega (arith, lt)))),
)

all_below-contains :
    (n : ℕ) (r : List ℕ) → all_below n r ≡ true → (i : ℕ) → contains i r ≡ true → i < n
unfolding all_below contains
all_below-contains n [] h i m = absurd cc
all_below-contains n (j ∷ js) h i m =
    let (first, rest) = &&-true (ltb j n) (all_below n js) h in
    ground (arith, first, m, all_below-contains n js rest i)

contains-all_below :
    (n : ℕ) (r : List ℕ) → ((i : ℕ) → contains i r ≡ true → i < n) → all_below n r ≡ true
unfolding all_below contains
contains-all_below n [] h = refl
contains-all_below n (j ∷ js) h =
    let first : j < n = h j (ground arith) in
    let rest = contains-all_below n js (λ i m. h i (ground (arith, m))) in
    ground (arith, first, rest)

none-require : (b : Bool) (e : Invalid) → b ≡ true → require b e ≡ none
unfolding require
none-require true e h = refl
none-require false e h = absurd cc

module _ (c : Scalars) where
  node_refs-above : (xs : Items c) (i : ℕ) → count_items c xs ≤ i → node_refs c xs i ≡ []
  unfolding node_refs
  node_refs-above no_items i le = refl
  node_refs-above (item x xs) zero le = absurd (omega (arith, le))
  node_refs-above (item x xs) (suc i) le = node_refs-above xs i (omega (arith, le))

  module _ (nodes : Items c) (root : Snapshot c) where
    abbrev start : List ℕ
    start = indices (snapshot_refs c root)

    abbrev pub IsReached : ℕ → Type 0
    IsReached = Reached (node_refs c nodes) start

    found : Found (node_refs c nodes) (count_items c nodes) (node_refs-above nodes) start (
        reach
          (node_refs c nodes)
          (length start + ref_count (node_refs c nodes) (count_items c nodes))
          (extend_pending start [])
          [])
    found = reach_lem (node_refs c nodes) (count_items c nodes) (node_refs-above nodes) start

    -- The check of the nodes of a graph passes exactly where the indices that the root reaches by
    -- references, of its own and of the nodes in between, are those of the nodes, all of them.
    pub check_reachable_iff :
        (check_reachable c nodes root ≡ none) ↔ ((i : ℕ) → (i < count_items c nodes) ↔ IsReached i)
    unfolding check_reachable compare_nodes
    check_reachable_iff =
        let n = count_items c nodes in
        let r = found.reachable in
        let result : check_reachable c nodes root ≡ compare_nodes n (some r) =
          ap (compare_nodes n) found.returns in
        (
          λ h i.
              let both = sym result ∙ h in
              let (all, below) =
                &&-true (has_all n r) (all_below n r) (require-none _ unreachable_nodes both) in
              (
                λ lt. found.sound i ((has_all_iff n r).0 all i lt),
                λ reached. all_below-contains n r below i (found.complete i reached),
              ),
          λ h.
              result
              ∙ none-require (has_all n r && all_below n r) unreachable_nodes (
                  ground (
                    arith,
                    (has_all_iff n r).1 (λ i lt. found.complete i ((h i).0 lt)),
                    contains-all_below n r (λ i m. (h i).1 (found.sound i m)),
                  )),
        )

  -- In a valid graph, the root reaches every node, and no reference on the way leaves the graph.
  pub walk-reaches :
      (num : Numbers c) (nodes : Items c) (root : Snapshot c) (d : ℕ) (size : Option ℕ)
      → walk c num (frozen_graph nodes root) d size ≡ none
      → (i : ℕ) → (i < count_items c nodes) ↔ IsReached nodes root i
  unfolding walk
  walk-reaches num nodes root d size h = (check_reachable_iff nodes root).0 (seq-none _ _ h).1
