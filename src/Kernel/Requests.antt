-- ===== src/Kernel/Requests.antt =====
-- runtime.py: a top-level `get` opens a request, and evicts the least recently used queries when the
-- request ends. Request spans, observers and the start from a checkpoint are left out.
use pyinc.Prelude.{ℕ, zero, suc, ◌+◌, none, some, List, [], ◌∷◌, if◌then◌else◌, ltb, length}
use pyinc.Assoc.{find}
use pyinc.Kernel.Node.{NodeKey, node_keys}
use pyinc.Kernel.Program.{Program}
use pyinc.Kernel.State.{Database, M, evict_query_record}
use pyinc.Kernel.Verify.{get_within}
use pyinc.Kernel.Execute.{ensure_query}

module _ {S : Type 0} where
  -- `_query_last_used.get(item, -1)`, plus one
  unfoldable pub last_used : Database S → NodeKey → ℕ
  last_used s k = elim (find node_keys k s.query_last_used) [ none ↦ 0 | some n ↦ suc n ]

  -- `min` of a non-empty set: the first key of those used least recently
  unfoldable pub least_recent : Database S → NodeKey → List NodeKey → NodeKey
  unfolding last_used
  least_recent s k [] = k
  least_recent s k (j ∷ js) =
      least_recent s (if ltb (last_used s j) (last_used s k) then j else k) js

  unfoldable pub evict_one : Database S → List NodeKey → Database S
  evict_one s [] = s
  evict_one s (k ∷ ks) = evict_query_record (least_recent s k ks) s

  -- Each round takes a key away, so as many rounds as there are keys are enough.
  unfoldable pub evict_rounds : ℕ → ℕ → Database S → Database S
  evict_rounds zero limit s = s
  evict_rounds (suc rounds) limit s =
      let rest = evict_rounds rounds limit (evict_one s s.query_records) in
      if ltb limit (length s.query_records) then rest else s

  unfoldable pub evict_query_nodes_if_needed : Database S → Database S
  evict_query_nodes_if_needed s = elim s.max_query_nodes [
    | none ↦ s
    | some limit ↦ evict_rounds (length s.query_records) limit s
  ]

  -- The two ends of `_request_scope`
  unfoldable pub open_request : Database S → Database S
  open_request s = record s {
    request = some (s.request_counter + 1);
    request_counter = s.request_counter + 1;
  }

  unfoldable pub close_request : Database S → Database S
  close_request s = evict_query_nodes_if_needed (record s { request = none })

  unfoldable pub get : Program S → ℕ → NodeKey → M S S
  get p depth k s = elim s.request [
    | some _ ↦ get_within (ensure_query p depth) k s
    | none ↦
        let (o, s') = get_within (ensure_query p depth) k (open_request s) in (o, close_request s')
  ]
