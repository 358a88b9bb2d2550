-- ===== src/Kernel/State.antt =====
-- runtime.py: `NodeRecord`, `ExecutionFrame`, the state of a `Database`, and the small operations on
-- it. Resources, checkpoints, observers, spans, timings and the ambient guards are left out.

use pyinc.Prelude.{
  ℕ, ◌+◌, Bool, true, false, Option, none, List, [], ◌∷◌, ◌++◌, String, if◌then◌else◌,
}
use pyinc.Assoc.{find, put, remove}
use pyinc.Kernel.Node.{NodeKey, same_key, node_keys, add}
use pyinc.Kernel.Program.{Outcome, Input}

pub data Decision : Type 0 where
  executed backdated reused : Decision

pub record NodeRecord (S : Type 0) : Type 0 where
  pub snapshot : S
  pub digest : String
  pub changed_at : ℕ
  pub verified_at : ℕ
  pub dependencies : List NodeKey
  pub last_decision : Decision
  pub last_recompute : Decision
  pub reason : String
  pub untracked_reasons : List String
  pub checked_in_request : Option ℕ
  pub checkpointable : Bool

abbrev pub is_untracked : {S : Type 0} → NodeRecord S → Bool
is_untracked r = elim r.untracked_reasons [ [] ↦ false | ◌∷◌ _ _ ↦ true ]

pub record ExecutionFrame : Type 0 where
  pub key : NodeKey
  pub dependencies : List NodeKey
  pub untracked_reasons : List String
  pub checkpointable : Bool

-- The counters of `_stats` that the modelled operations move.
pub record Stats : Type 0 where
  pub query_executions : ℕ
  pub query_reuses : ℕ
  pub query_backdates : ℕ
  pub input_sets : ℕ
  pub input_equal_ignores : ℕ
  pub evictions : ℕ

-- `request` is the id of the open request, and `none` where `_current_request_id` is -1.
pub record Database (S : Type 0) : Type 0 where
  pub max_query_nodes : Option ℕ
  pub revision : ℕ
  pub records : List (NodeKey × NodeRecord S)
  pub input_records : List (String × NodeKey)
  pub inputs_by_key : List (String × Input S)
  pub query_records : List NodeKey
  pub query_last_used : List (NodeKey × ℕ)
  pub query_touch_counter : ℕ
  pub execution_stack : List ExecutionFrame
  pub request : Option ℕ
  pub request_counter : ℕ
  pub stats : Stats

abbrev pub M : Type 0 → Type 0 → Type 0
M S A = Database S → Outcome A × Database S

-- `Database(max_query_nodes=...)`
abbrev pub init : {S : Type 0} → Option ℕ → Database S
init limit = record {
  max_query_nodes = limit;
  revision = 0;
  records = [];
  input_records = [];
  inputs_by_key = [];
  query_records = [];
  query_last_used = [];
  query_touch_counter = 0;
  execution_stack = [];
  request = none;
  request_counter = 0;
  stats = record {
    query_executions = 0;
    query_reuses = 0;
    query_backdates = 0;
    input_sets = 0;
    input_equal_ignores = 0;
    evictions = 0;
  };
}

-- The innermost frame, changed in place.
abbrev pub change_frame :
    (ExecutionFrame → ExecutionFrame) → List ExecutionFrame → List ExecutionFrame
change_frame f [] = []
change_frame f (x ∷ xs) = f x ∷ xs

-- `set.discard`
unfoldable pub discard : NodeKey → List NodeKey → List NodeKey
discard k [] = []
discard k (j ∷ ks) = let rest = discard k ks in if same_key j k then rest else j ∷ rest

unfoldable pub on_stack : NodeKey → List ExecutionFrame → Bool
on_stack k [] = false
on_stack k (f ∷ fs) = if same_key f.key k then true else on_stack k fs

module _ {S : Type 0} where
  abbrev pub get_record : NodeKey → Database S → Option (NodeRecord S)
  get_record k s = find node_keys k s.records

  abbrev pub put_record : NodeKey → NodeRecord S → Database S → Database S
  put_record k r s = record s { records = put node_keys k r s.records }

  abbrev pub on_frame : (ExecutionFrame → ExecutionFrame) → Database S → Database S
  on_frame f s = record s { execution_stack = change_frame f s.execution_stack }

  unfoldable pub record_dependency : NodeKey → Database S → Database S
  record_dependency k s = on_frame (λ f. record f { dependencies = add k f.dependencies }) s

  unfoldable pub mark_frame_untracked : String → Database S → Database S
  mark_frame_untracked why s =
      on_frame (λ f. record f { untracked_reasons = f.untracked_reasons ++ why ∷ [] }) s

  unfoldable pub mark_frame_impure : String → Database S → Database S
  mark_frame_impure why s =
      on_frame
        (λ f. record f {
          untracked_reasons = f.untracked_reasons ++ why ∷ [];
          checkpointable = false;
        })
        s

  unfoldable pub mark_query_used : NodeKey → Database S → Database S
  mark_query_used k s = record s {
    query_touch_counter = s.query_touch_counter + 1;
    query_last_used = put node_keys k (s.query_touch_counter + 1) s.query_last_used;
  }

  abbrev pub forget_query : NodeKey → Database S → Database S
  forget_query k s = record s {
    records = remove node_keys k s.records;
    query_records = discard k s.query_records;
    query_last_used = remove node_keys k s.query_last_used;
  }

  unfoldable pub discard_uncommitted_query : NodeKey → Database S → Database S
  unfolding on_stack
  discard_uncommitted_query k s = if on_stack k s.execution_stack then s else forget_query k s

  unfoldable pub evict_query_record : NodeKey → Database S → Database S
  evict_query_record k s =
      forget_query k (record s { stats = record s.stats { evictions = s.stats.evictions + 1 } })
