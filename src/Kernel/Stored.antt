-- ===== src/Kernel/Stored.antt =====
-- runtime.py, a `get` of any program, returned or raised: how many queries have records.
use pyinc.Prelude.{All, ℕ, ◌≤◌, ◌≡◌, sym, ◌∙◌, true, none, some, List, is_some, length}
use mathlib.Core.Path.{subst}
use pyinc.Kernel.Node.{Kind, NodeKey}
use pyinc.Kernel.Program.{Program}
use pyinc.Kernel.State.{Database, get_record}
use pyinc.Kernel.Execute.{ensure_query}
use pyinc.Kernel.Requests.{get, open_request, close_request}
use pyinc.Kernel.Keeps.{get_within-Keeps, ensure_query-Keeps}
use pyinc.Kernel.Limit.{served, get-closed}
use pyinc.Kernel.KeySets.{AreDistinct}
use pyinc.Kernel.Eviction.{IsIndexed, evict-stored, evict-IsIndexed}
use pyinc.Kernel.Growth.{get_within-Grows, ensure_query-Grows}

module _ {S : Type 0} where
  -- After a `get` with no request open, whatever the functions of the program do and whether it
  -- returns or raises, records are left of at most as many queries as the limit of the database says:
  -- any list of different queries that have one is no longer. The condition: before the `get`, every
  -- query with a record is in the set of the stored queries.
  pub get-limit :
      (p : Program S) (depth : ℕ) (k : NodeKey) (s : Database S) (limit : ℕ) (ks : List NodeKey)
      → s.request ≡ none
      → s.max_query_nodes ≡ some limit
      → IsIndexed s
      → AreDistinct ks
      → All (λ j. (j.kind ≡ Kind.query) × (is_some (get_record j (get p depth k s).1) ≡ true)) ks
      → length ks ≤ limit
  unfolding open_request close_request
  get-limit p depth k s limit ks idle e indexed distinct stored =
      let ensure = ensure_query p depth in
      let opened = open_request s in
      let closed = record (served p depth k s) { request = none } in
      let kept = get_within-Keeps ensure (ensure_query-Keeps p depth) k opened in
      let grown = get_within-Grows ensure (ensure_query-Grows p depth) k opened in
      evict-stored closed limit ks (kept.max_query_nodes ∙ e) (grown.indexed indexed) distinct (
        subst (λ t. All (λ j. (j.kind ≡ Kind.query) × (is_some (get_record j t) ≡ true)) ks)
          (get-closed p depth k s idle) stored)

  -- After a `get` with no request open, whatever the functions of the program do and whether it
  -- returns or raises, every query with a record is in the set of the stored queries, if that was so
  -- before; so eviction finds every stored query.
  pub get-IsIndexed :
      (p : Program S) (depth : ℕ) (k : NodeKey) (s : Database S)
      → s.request ≡ none
      → IsIndexed s
      → IsIndexed (get p depth k s).1
  unfolding open_request close_request
  get-IsIndexed p depth k s idle indexed =
      let closed = record (served p depth k s) { request = none } in
      let grown =
        get_within-Grows (ensure_query p depth) (ensure_query-Grows p depth) k (open_request s) in
      subst IsIndexed (sym (get-closed p depth k s idle))
        (evict-IsIndexed closed (grown.indexed indexed))
