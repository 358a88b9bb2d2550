-- ===== src/Value/Reach.antt =====
-- value.py, the end of `_validate_snapshot`: the nodes of a graph that are reached from its root, by
-- a stack of pending indices, for any successors. A list of reached indices stands for the set.

use pyinc.Prelude.{
  ℕ, zero, suc, ◌+◌, Bool, true, false, Option, none, some, List, [], ◌∷◌, length, if◌then◌else◌,
  ◌==◌, In,
}

unfoldable pub contains : ℕ → List ℕ → Bool
contains i [] = false
contains i (j ∷ js) = if j == i then true else contains i js

-- `pending.extend`, onto a stack whose last index comes first
unfoldable pub extend_pending : List ℕ → List ℕ → List ℕ
extend_pending [] pending = pending
extend_pending (i ∷ is) pending = extend_pending is (i ∷ pending)

-- The loop, with a bound on its rounds. It has no result where the bound is too small.
unfoldable pub reach : (ℕ → List ℕ) → ℕ → List ℕ → List ℕ → Option (List ℕ)
unfolding contains extend_pending
reach refs fuel [] reachable = some reachable
reach refs zero (i ∷ pending) reachable = none
reach refs (suc fuel) (i ∷ pending) reachable =
    let again = reach refs fuel pending reachable in
    let further = reach refs fuel (extend_pending (refs i) pending) (i ∷ reachable) in
    if contains i reachable then again else further

-- `i` is reached from the indices of `start` by references.
pub data Reached (refs : ℕ → List ℕ) (start : List ℕ) : ℕ → Type 0 where
  from_start : {i : ℕ} → In i start → Reached refs start i
  by_ref : {i j : ℕ} → Reached refs start i → In j (refs i) → Reached refs start j

-- The number of references of the nodes below `n`: with those of the root, enough rounds.
unfoldable pub ref_count : (ℕ → List ℕ) → ℕ → ℕ
ref_count refs zero = 0
ref_count refs (suc n) = length (refs n) + ref_count refs n
