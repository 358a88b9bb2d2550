-- ===== src/Kernel/Execute.antt =====
-- runtime.py: evaluation on demand. `ensure_query` brings a query's record up to date, by checking
-- its dependencies in the order of their labels, and `execute_query` runs its function.

use text.Mathlib.Text.{◌==◌ as str_eq}
use pyinc.Prelude.{
  ℕ, zero, suc, ◌+◌, Bool, true, false, not, ◌&&◌, Option, none, some, List, [], ◌∷◌, String,
  if◌then◌else◌,
}
use pyinc.Assoc.{put}
use pyinc.Kernel.Node.{NodeKey, add, node_keys}
use pyinc.Kernel.Program.{
  cycle_error, recursion_error, Outcome, ok, raise, Values, Policy, canonical, eq, cutoff, Program,
}
use pyinc.Kernel.Verify.{run, live, dirty_reason, sort_by_label, same_request}
use pyinc.Kernel.State.{
  Decision, executed, backdated, reused, NodeRecord, is_untracked, ExecutionFrame, Database, M,
  get_record, put_record, mark_query_used, on_stack, Stats,
}

-- `execute_query` after the function has returned: what is stored, and the revision.
pub record Commit : Type 0 where
  pub decision : Decision
  pub changed_at : ℕ
  pub new_revision : ℕ

unfoldable pub count_decision : Decision → Stats → Stats
count_decision backdated t = record t { query_backdates = t.query_backdates + 1 }
count_decision _ t = record t { query_executions = t.query_executions + 1 }

unfoldable pub has_reasons : List String → Bool
has_reasons [] = false
has_reasons (_ ∷ _) = true

module _ {S : Type 0} where
  -- The comparison with the previous result.
  unfoldable pub equal_result : Values S → Policy S → NodeRecord S → S → String → Bool
  equal_result v canonical previous snapshot digest =
      str_eq digest previous.digest && v.snapshots_equal previous.snapshot snapshot
  equal_result v (eq f) previous snapshot digest = f previous.snapshot snapshot
  equal_result v (cutoff f) previous snapshot digest =
      v.snapshots_equal (f previous.snapshot) (f snapshot)

  unfoldable pub decide :
      Values S → Policy S → Option (NodeRecord S) → Bool → S → String → ℕ → Commit
  decide v policy none impure snapshot digest revision = record {
    decision = executed;
    changed_at = revision;
    new_revision = revision;
  }
  decide v policy (some previous) impure snapshot digest revision =
      if not impure && equal_result v policy previous snapshot digest
      then record {
        decision = backdated;
        changed_at = previous.changed_at;
        new_revision = revision;
      }
      else if impure && str_eq digest previous.digest
      then record { decision = executed; changed_at = previous.changed_at; new_revision = revision }
      else record { decision = executed; changed_at = revision + 1; new_revision = revision + 1 }

  abbrev pub committed_record :
      Commit → ExecutionFrame → String → S → String → Option ℕ → NodeRecord S
  committed_record c frame reason snapshot digest request = record {
    snapshot = snapshot;
    digest = digest;
    changed_at = c.changed_at;
    verified_at = c.new_revision;
    dependencies = frame.dependencies;
    last_decision = c.decision;
    last_recompute = c.decision;
    reason = reason;
    untracked_reasons = frame.untracked_reasons;
    checked_in_request = request;
    checkpointable = frame.checkpointable;
  }

  unfoldable pub commit :
      Program S
      → NodeKey
      → Option (NodeRecord S)
      → String
      → ExecutionFrame
      → S
      → Database S
      → Database S
  commit p k previous reason frame snapshot s =
      let digest = p.values.fingerprint_snapshot snapshot in
      let c =
        decide p.values (p.policy k.identity) previous (has_reasons frame.untracked_reasons)
          snapshot digest s.revision in
      record s {
        revision = c.new_revision;
        records =
            put node_keys k (committed_record c frame reason snapshot digest s.request) s.records;
        query_records = add k s.query_records;
        stats = count_decision c.decision s.stats;
      }

  unfoldable pub push_frame : NodeKey → Database S → Database S
  push_frame k s = record s {
    execution_stack =
        record { key = k; dependencies = []; untracked_reasons = []; checkpointable = true }
        ∷ s.execution_stack;
  }

  -- The frame of the execution that ends, and the state without it.
  unfoldable pub finish :
      Program S
      → NodeKey
      → Option (NodeRecord S)
      → String
      → List ExecutionFrame
      → Outcome S
      → M S (Unit {0})
  finish p k previous reason (frame ∷ rest) (ok snapshot) s =
      (ok tt, commit p k previous reason frame snapshot (record s { execution_stack = rest }))
  finish p k previous reason (_ ∷ rest) (raise e) s = (raise e, record s { execution_stack = rest })
  finish p k previous reason [] (ok _) s = (ok tt, s)
  finish p k previous reason [] (raise e) s = (raise e, s)

  unfoldable pub execute_query :
      Program S
      → (NodeKey → M S (Unit {0}))
      → NodeKey
      → Option (NodeRecord S)
      → String
      → M S (Unit {0})
  execute_query p ensure k previous reason s =
      let (o, s') = run ensure (p.body k.identity k.args_digest) (push_frame k s) in
      finish p k previous reason s'.execution_stack o s'

  -- `_mark_query_used` follows every evaluation that did not raise.
  unfoldable pub use_query :
      NodeKey → Outcome (Unit {0}) × Database S → Outcome (Unit {0}) × Database S
  unfolding mark_query_used
  use_query k (ok _, s) = (ok tt, mark_query_used k s)
  use_query k (raise e, s) = (raise e, s)

  unfoldable pub count_reuse : Database S → Database S
  count_reuse s = record s { stats = record s.stats { query_reuses = s.stats.query_reuses + 1 } }

  unfoldable pub reuse_checked : NodeKey → NodeRecord S → Database S → Database S
  unfolding count_reuse mark_query_used
  reuse_checked k r s = mark_query_used k (
      count_reuse (
        put_record k
          (record r { last_decision = reused; reason = "already checked in current request" }) s))

  unfoldable pub reuse_verified : NodeKey → NodeRecord S → Database S → Database S
  unfolding count_reuse mark_query_used
  reuse_verified k r s = mark_query_used k (
      count_reuse (
        put_record k
          (record r {
            verified_at = s.revision;
            last_decision = reused;
            reason = "dependencies unchanged";
            checked_in_request = s.request;
          })
          s))

  unfoldable pub after_verify :
      Program S
      → (NodeKey → M S (Unit {0}))
      → NodeKey
      → NodeRecord S
      → Outcome (Option String) × Database S
      → Outcome (Unit {0}) × Database S
  after_verify p ensure k r (ok none, s) = (ok tt, reuse_verified k (live k r s) s)
  after_verify p ensure k r (ok (some why), s) =
      use_query k (execute_query p ensure k (some (live k r s)) why s)
  after_verify p ensure k r (raise e, s) = (raise e, s)

  unfoldable pub refresh :
      Program S → (NodeKey → M S (Unit {0})) → NodeKey → NodeRecord S → M S (Unit {0})
  refresh p ensure k r s =
      if same_request r.checked_in_request s.request
      then (ok tt, reuse_checked k r s)
      else if is_untracked r
      then use_query k (execute_query p ensure k (some r) "untracked dependency" s)
      else after_verify p ensure k r (dirty_reason ensure k r (sort_by_label r.dependencies) s)

  -- `_ensure_query`, with what it calls of itself given
  unfoldable pub ensure_step : Program S → (NodeKey → M S (Unit {0})) → NodeKey → M S (Unit {0})
  ensure_step p ensure k s =
      if on_stack k s.execution_stack
      then (raise (cycle_error k.label), s)
      else elim (get_record k s) [
        | none ↦ use_query k (execute_query p ensure k none "cold execute" s)
        | some r ↦ refresh p ensure k r s
      ]

  -- The fuel bounds the depth of nested evaluations.
  unfoldable pub ensure_query : Program S → ℕ → NodeKey → M S (Unit {0})
  ensure_query p zero k s = (raise recursion_error, s)
  ensure_query p (suc depth) k s = ensure_step p (ensure_query p depth) k s
