-- ===== src/Kernel/Inputs.antt =====
-- runtime.py: `Database.set` and the helpers that `set_many` shares. A value reaches it frozen, and no
-- store is configured. `_roll_span_request` does nothing outside a span.

use pyinc.Prelude.{
  ℕ, ◌+◌, Bool, true, false, Option, none, some, List, [], ◌∷◌, String, if◌then◌else◌, is_some,
}
use pyinc.Assoc.{find, put, string_keys}
use pyinc.Kernel.Node.{NodeKey, prospective_input_key}
use pyinc.Kernel.Program.{
  input_key_error, reentrant_database_error, ok, raise, Values, compare_values, Input,
}
use pyinc.Kernel.State.{
  executed, reused, NodeRecord, ExecutionFrame, Database, M, get_record, put_record,
}
use pyinc.Kernel.Verify.{policy_conflict}

-- `_boundary_state`, on the thread of the request
unfoldable pub inside : List ExecutionFrame → Bool
inside [] = false
inside (_ ∷ _) = true

module _ {S : Type 0} where
  -- `_input_node_key`
  unfoldable pub input_node_key : Input S → Database S → NodeKey
  unfolding prospective_input_key
  input_node_key i s = elim (find string_keys i.key s.input_records) [
    | none ↦ prospective_input_key i.key
    | some registered ↦ registered
  ]

  -- `_commit_input_registration`
  unfoldable pub commit_input_registration : Input S → Database S → Database S
  unfolding prospective_input_key
  commit_input_registration i s =
      if is_some (find string_keys i.key s.input_records) then s else record s {
        input_records = put string_keys i.key (prospective_input_key i.key) s.input_records;
        inputs_by_key = put string_keys i.key i s.inputs_by_key;
      }

  unfoldable pub input_equal : Values S → Input S → S → Option (NodeRecord S) → Bool
  input_equal v i snapshot none = false
  input_equal v i snapshot (some r) = compare_values v i.policy r.snapshot snapshot

  -- An equal update: the stored value is replaced, and nothing counts as changed.
  unfoldable pub ignore_equal : NodeKey → S → String → Database S → Database S
  ignore_equal k snapshot digest s = elim (get_record k s) [
    | none ↦ s
    | some r ↦
        put_record k
          (record r {
            snapshot = snapshot;
            digest = digest;
            verified_at = s.revision;
            last_decision = reused;
            reason = "equal input update ignored";
            checked_in_request = s.request;
          })
          s
  ]

  -- A change, at a revision that the caller has already moved.
  unfoldable pub changed_record : Option (NodeRecord S) → S → String → ℕ → Option ℕ → NodeRecord S
  changed_record none snapshot digest revision request = record {
    snapshot = snapshot;
    digest = digest;
    changed_at = revision;
    verified_at = revision;
    dependencies = [];
    last_decision = executed;
    last_recompute = executed;
    reason = "input set";
    untracked_reasons = [];
    checked_in_request = request;
    checkpointable = true;
  }
  changed_record (some r) snapshot digest revision request = record r {
    snapshot = snapshot;
    digest = digest;
    changed_at = revision;
    verified_at = revision;
    last_decision = executed;
    last_recompute = executed;
    reason = "input changed";
    checked_in_request = request;
  }

  unfoldable pub apply_change : NodeKey → S → String → Database S → Database S
  apply_change k snapshot digest s =
      put_record k (changed_record (get_record k s) snapshot digest s.revision s.request)
        (record s { stats = record s.stats { input_sets = s.stats.input_sets + 1 } })

  -- The commit of `set`, after every step that can fail.
  unfoldable pub write_input : Values S → Input S → S → Database S → Database S
  write_input v i snapshot s =
      let k = input_node_key i s in
      let digest = v.fingerprint_snapshot snapshot in
      let equal = input_equal v i snapshot (get_record k s) in
      let s' = commit_input_registration i s in
      if equal
      then ignore_equal k snapshot digest (record s' {
        stats = record s'.stats { input_equal_ignores = s'.stats.input_equal_ignores + 1 };
      })
      else apply_change k snapshot digest (record s' { revision = s'.revision + 1 })

  unfoldable pub set : Values S → Input S → S → M S (Unit {0})
  set v i snapshot s =
      if inside s.execution_stack
      then (raise (reentrant_database_error "db.set()"), s)
      else if policy_conflict i s
      then (raise (input_key_error i.key), s)
      else (ok tt, write_input v i snapshot s)
