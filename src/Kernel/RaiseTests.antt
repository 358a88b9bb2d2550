-- ===== src/Kernel/RaiseTests.antt =====
-- runtime.py, errors on concrete programs: an old dependency that raises while it is checked, and a
-- query that raises at its first evaluation.
use text.Mathlib.Text.{◌==◌ as str_eq}
use pyinc.Prelude.{
  arith, some_eq, ◌≡◌, refl, Bool, true, false, none, List, [], ◌∷◌, String, if◌then◌else◌,
}
use pyinc.Kernel.Node.{Kind, NodeKey, same_key, prospective_input_key}
use pyinc.Kernel.Program.{
  key_error, user_error, Outcome, ok, raise, Input, canonical, compare_values, Body, ret, throw,
  read, call, Program,
}
use pyinc.Kernel.State.{NodeRecord, executed, Database, init, get_record, on_stack}
use pyinc.Kernel.Verify.{sort_by_label, same_request}
use pyinc.Kernel.Execute.{ensure_query, ensure_step}
use pyinc.Kernel.Inputs.{set}
use pyinc.Kernel.Requests.{get, open_request}
use pyinc.Kernel.Fresh.{World, Rank, value, fresh, run_fresh}
use pyinc.Kernel.SetInput.{update}
use mathlib.Core.Path.{subst}
use pyinc.Kernel.Run.{Safe}
use pyinc.Kernel.Samples.{canonical_exact}
use pyinc.Kernel.History.{
  Sound, Op, set_input, get_query, answers, from_scratch, no_inputs, was_set, got,
}
use pyinc.Kernel.ColdFailure.{IsCold, get-raised-IsCold}

abbrev flag : Input String
flag = record { key = "flag"; policy = canonical; policy_digest = "exact" }

abbrev query : String → NodeKey
query name = record { kind = Kind.query; identity = name; args_digest = ""; label = name }

abbrev on_value : (String → Body String) → Outcome String → Body String
on_value f (ok v) = f v
on_value f (raise e) = throw e

-- `child` calls `checked` while the flag is set; `checked` refuses to run where it is not.
abbrev body_at : Bool → Body String
body_at true =
    read flag
      (on_value (λ v. if str_eq v "on" then call (query "checked") (on_value ret) else ret "none"))
body_at false =
    read flag (on_value (λ v. if str_eq v "on" then ret "some" else throw (user_error "off")))

abbrev program : Program String
program = record {
  values = record { snapshots_equal = str_eq; fingerprint_snapshot = λ v. v };
  body = λ name args. body_at (str_eq name "child");
  policy = λ name. canonical;
}

abbrev rank : Rank
rank name args = if str_eq name "child" then 1 else 0

abbrev session : List (Op String)
session =
    set_input flag "on"
    ∷ get_query (query "child")
    ∷ set_input flag "off"
    ∷ get_query (query "child")
    ∷ []

session-from_scratch :
    from_scratch program rank session no_inputs
    ≡ was_set (ok tt) ∷ got (ok "some") ∷ was_set (ok tt) ∷ got (ok "none") ∷ []
unfolding from_scratch value run_fresh fresh update
session-from_scratch = refl

session-answers :
    answers program 2 session (init none)
    ≡ was_set (ok tt) ∷ got (ok "some") ∷ was_set (ok tt) ∷ got (raise (user_error "off")) ∷ []
unfolding answers set get pyinc.Kernel.Inputs.inside pyinc.Kernel.Verify.policy_conflict
    pyinc.Assoc.find pyinc.Kernel.Inputs.write_input pyinc.Kernel.Inputs.input_equal
    pyinc.Kernel.Inputs.apply_change pyinc.Kernel.Inputs.commit_input_registration
    pyinc.Kernel.Verify.get_within ensure_query ensure_step open_request pyinc.Assoc.put same_key
    pyinc.Kernel.Inputs.input_node_key pyinc.Kernel.Execute.use_query
    pyinc.Kernel.Execute.execute_query pyinc.Kernel.Execute.finish pyinc.Assoc.remove
    pyinc.Kernel.Execute.after_verify pyinc.Kernel.Execute.commit
    pyinc.Kernel.Execute.count_decision pyinc.Kernel.Execute.count_reuse pyinc.Kernel.Execute.decide
    pyinc.Kernel.Execute.equal_result pyinc.Kernel.Execute.has_reasons
    pyinc.Kernel.Execute.push_frame pyinc.Kernel.Execute.refresh pyinc.Kernel.Execute.reuse_checked
    pyinc.Kernel.Execute.reuse_verified pyinc.Kernel.Inputs.changed_record
    pyinc.Kernel.Inputs.ignore_equal pyinc.Kernel.Node.add pyinc.Kernel.Node.contains
    pyinc.Kernel.Node.prospective_input_key compare_values pyinc.Kernel.Requests.close_request
    pyinc.Kernel.Requests.evict_query_nodes_if_needed pyinc.Kernel.State.discard
    pyinc.Kernel.State.discard_uncommitted_query pyinc.Kernel.State.mark_frame_impure
    pyinc.Kernel.State.mark_query_used on_stack pyinc.Kernel.State.record_dependency
    pyinc.Kernel.Verify.after_one pyinc.Kernel.Verify.after_recheck pyinc.Kernel.Verify.dirty_reason
    pyinc.Kernel.Verify.failed pyinc.Kernel.Verify.finish_get pyinc.Kernel.Verify.insert_by_label
    pyinc.Kernel.Verify.label_before pyinc.Kernel.Verify.live
    pyinc.Kernel.Verify.maybe_changed_after pyinc.Kernel.Verify.moved_after
    pyinc.Kernel.Verify.read_input pyinc.Kernel.Verify.recheck pyinc.Kernel.Verify.run same_request
    sort_by_label pyinc.Kernel.Verify.own_cycle pyinc.Kernel.Verify.read_record
    pyinc.Kernel.Verify.fetch
session-answers = refl

abbrev flag_on : World String
flag_on = update no_inputs "flag" "on"

-- Where the flag is on, neither function raises.
body_at-Safe : (b : Bool) → Safe program rank (λ key. "exact") flag_on (body_at b)
unfolding update value run_fresh fresh
body_at-Safe true = (
  ("on", refl),
  refl,
  λ v e.
      subst
        (λ x.
          Safe program rank (λ key. "exact") flag_on
            (if str_eq x "on" then call (query "checked") (on_value ret) else ret "none"))
        (some_eq e) (refl, λ v e. tt),
)
body_at-Safe false = (
  ("on", refl),
  refl,
  λ v e.
      subst
        (λ x.
          Safe program rank (λ key. "exact") flag_on
            (if str_eq x "on" then ret "some" else throw (user_error "off")))
        (some_eq e) tt,
)

-- The part of the session before the flag is turned off meets the conditions of whole sessions.
on-Sound :
    Sound program rank
      (λ key. "exact")
      2
      (set_input flag "on" ∷ get_query (query "child") ∷ [])
      no_inputs
unfolding update
on-Sound = (
  (refl, canonical_exact),
  (refl, omega arith, (λ name args. body_at-Safe (str_eq name "child")), tt),
)

get-raised-IsCold_example : IsCold (query "child") (get program 2 (query "child") (init none)).1
unfolding set get pyinc.Kernel.Inputs.inside pyinc.Kernel.Verify.policy_conflict pyinc.Assoc.find
    pyinc.Kernel.Inputs.write_input pyinc.Kernel.Inputs.input_equal pyinc.Kernel.Inputs.apply_change
    pyinc.Kernel.Inputs.commit_input_registration pyinc.Kernel.Verify.get_within ensure_query
    ensure_step open_request pyinc.Assoc.put same_key pyinc.Kernel.Inputs.input_node_key
    pyinc.Kernel.Execute.use_query pyinc.Kernel.Execute.execute_query pyinc.Kernel.Execute.finish
    pyinc.Assoc.remove pyinc.Kernel.Execute.after_verify pyinc.Kernel.Execute.commit
    pyinc.Kernel.Execute.count_decision pyinc.Kernel.Execute.count_reuse pyinc.Kernel.Execute.decide
    pyinc.Kernel.Execute.equal_result pyinc.Kernel.Execute.has_reasons
    pyinc.Kernel.Execute.push_frame pyinc.Kernel.Execute.refresh pyinc.Kernel.Execute.reuse_checked
    pyinc.Kernel.Execute.reuse_verified pyinc.Kernel.Inputs.changed_record
    pyinc.Kernel.Inputs.ignore_equal pyinc.Kernel.Node.add pyinc.Kernel.Node.contains
    pyinc.Kernel.Node.prospective_input_key compare_values pyinc.Kernel.Requests.close_request
    pyinc.Kernel.Requests.evict_query_nodes_if_needed pyinc.Kernel.State.discard
    pyinc.Kernel.State.discard_uncommitted_query pyinc.Kernel.State.mark_frame_impure
    pyinc.Kernel.State.mark_query_used on_stack pyinc.Kernel.State.record_dependency
    pyinc.Kernel.Verify.after_one pyinc.Kernel.Verify.after_recheck pyinc.Kernel.Verify.dirty_reason
    pyinc.Kernel.Verify.failed pyinc.Kernel.Verify.finish_get pyinc.Kernel.Verify.insert_by_label
    pyinc.Kernel.Verify.label_before pyinc.Kernel.Verify.live
    pyinc.Kernel.Verify.maybe_changed_after pyinc.Kernel.Verify.moved_after
    pyinc.Kernel.Verify.read_input pyinc.Kernel.Verify.recheck pyinc.Kernel.Verify.run same_request
    sort_by_label pyinc.Kernel.Verify.own_cycle pyinc.Kernel.Verify.read_record
    pyinc.Kernel.Verify.fetch
get-raised-IsCold_example =
    get-raised-IsCold (query "child") program 2 (init none) (key_error "flag") refl refl refl refl
