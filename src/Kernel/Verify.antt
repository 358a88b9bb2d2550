-- ===== src/Kernel/Verify.antt =====
-- runtime.py: reads, the run of a query's function, and the check of a record's dependencies, with
-- the evaluation of a query (`ensure`) given.
use Prim.Native.Nat.{Ordering}
use Prim.Native.String.{compare, ◌++◌ as text_append}
use text.Mathlib.Text.{◌==◌ as str_eq}
use pyinc.Prelude.{
  ℕ, Bool, true, false, not, ◌||◌, Option, none, some, List, [], ◌∷◌, String, if◌then◌else◌, ◌==◌,
  is_some, ltb,
}
use pyinc.Assoc.{find, string_keys}
use pyinc.Kernel.Node.{Kind, NodeKey, same_key}
use pyinc.Kernel.Program.{
  Error, cycle_error, key_error, input_key_error, Outcome, ok, raise, Input, Body, ret, throw, read,
  call, report_untracked_read,
}
use pyinc.Kernel.State.{
  NodeRecord, is_untracked, ExecutionFrame, Database, M, get_record, record_dependency,
  mark_frame_untracked, mark_frame_impure, discard_uncommitted_query,
}

-- `sorted(dependencies, key=lambda item: item.label)`
unfoldable pub label_before : NodeKey → NodeKey → Bool
label_before a b = elim (compare a.label b.label) [ Ordering.gt ↦ false | _ ↦ true ]

unfoldable pub insert_by_label : NodeKey → List NodeKey → List NodeKey
insert_by_label k [] = k ∷ []
insert_by_label k (j ∷ ks) = if label_before k j then k ∷ j ∷ ks else j ∷ insert_by_label k ks

unfoldable pub sort_by_label : List NodeKey → List NodeKey
unfolding insert_by_label
sort_by_label [] = []
sort_by_label (k ∷ ks) = insert_by_label k (sort_by_label ks)

unfoldable pub same_request : Option ℕ → Option ℕ → Bool
same_request none none = true
same_request (some a) (some b) = a == b
same_request _ _ = false

-- A query refused for re-entering itself: the frame that would be marked is its own.
unfoldable pub own_cycle : Error → NodeKey → List ExecutionFrame → Bool
own_cycle (cycle_error _) k (f ∷ _) = same_key f.key k
own_cycle _ _ _ = false

module _ {S : Type 0} where
  -- `_validate_input_registration`, with the handle itself taken for one of equal policy
  unfoldable pub policy_conflict : Input S → Database S → Bool
  policy_conflict i s = elim (find string_keys i.key s.inputs_by_key) [
    | none ↦ false
    | some registered ↦ not (str_eq registered.policy_digest i.policy_digest)
  ]

  -- the end of `read_input`: the record's value, and the edge to it
  unfoldable pub read_record : String → Option NodeKey → M S S
  read_record name none s = (raise (key_error name), s)
  read_record name (some k) s = elim (get_record k s) [
    | none ↦ (raise (key_error name), s)
    | some r ↦ (ok r.snapshot, record_dependency k s)
  ]

  unfoldable pub read_input : Input S → M S S
  unfolding policy_conflict read_record record_dependency
  read_input i s =
      if policy_conflict i s
      then (raise (input_key_error i.key), s)
      else read_record i.key (find string_keys i.key s.input_records) s

  -- `except Exception` of `get`: what an evaluation that raised leaves behind
  unfoldable pub failed : Bool → NodeKey → Error → Database S → Database S
  unfolding own_cycle discard_uncommitted_query mark_frame_impure
  failed had_record k e s =
      let s' = if had_record then s else discard_uncommitted_query k s in
      if own_cycle e k s'.execution_stack
      then s'
      else mark_frame_impure
          (text_append "caught exception from sub-query '" (text_append k.label "'")) s'

  unfoldable pub fetch : NodeKey → M S S
  fetch k s = elim (get_record k s) [
    | none ↦ (raise (key_error k.label), s)
    | some r ↦ (ok r.snapshot, s)
  ]

  unfoldable pub finish_get :
      Bool → NodeKey → Outcome (Unit {0}) × Database S → Outcome S × Database S
  unfolding failed record_dependency fetch
  finish_get had_record k (ok _, s) = fetch k (record_dependency k s)
  finish_get had_record k (raise e, s) = (raise e, failed had_record k e s)

  -- `get` of a query while a request is open
  unfoldable pub get_within : (NodeKey → M S (Unit {0})) → NodeKey → M S S
  unfolding finish_get
  get_within ensure k s = finish_get (is_some (get_record k s)) k (ensure k s)

  -- The run of a query's function.
  unfoldable pub run : (NodeKey → M S (Unit {0})) → Body S → M S S
  run ensure (ret v) s = (ok v, s)
  run ensure (throw e) s = (raise e, s)
  run ensure (read i rest) s = let (o, s') = read_input i s in run ensure (rest o) s'
  run ensure (call k rest) s = let (o, s') = get_within ensure k s in run ensure (rest o) s'
  run ensure (report_untracked_read why rest) s = run ensure rest (mark_frame_untracked why s)

  -- `_maybe_changed_after`, for a key whose node is an input or a registered query
  unfoldable pub recheck : (NodeKey → M S (Unit {0})) → NodeKey → M S (Unit {0})
  recheck ensure k s = elim k.kind [ Kind.input ↦ (ok tt, s) | Kind.query ↦ ensure k s ]

  unfoldable pub moved_after : NodeKey → ℕ → Database S → Bool
  moved_after k revision s = elim (get_record k s) [
    | none ↦ true
    | some r ↦ is_untracked r || ltb revision r.changed_at
  ]

  unfoldable pub after_recheck :
      NodeKey → ℕ → Outcome (Unit {0}) × Database S → Outcome Bool × Database S
  after_recheck k revision (ok _, s) = (ok (moved_after k revision s), s)
  after_recheck k revision (raise e, s) = (raise e, s)

  unfoldable pub maybe_changed_after : (NodeKey → M S (Unit {0})) → NodeKey → ℕ → M S Bool
  maybe_changed_after ensure k revision s =
      if is_some (get_record k s)
      then after_recheck k revision (recheck ensure k s)
      else (ok true, s)

  -- `existing`, which an evaluation that runs meanwhile may have written to
  unfoldable pub live : NodeKey → NodeRecord S → Database S → NodeRecord S
  live k r s = elim (get_record k s) [ none ↦ r | some r' ↦ r' ]

  unfoldable pub after_one :
      NodeKey
      → M S (Option String)
      → Outcome Bool × Database S
      → Outcome (Option String) × Database S
  after_one k more (ok true, s) = (ok (some (text_append "dependency changed: " k.label)), s)
  after_one k more (ok false, s) = more s
  after_one k more (raise e, s) = (raise e, s)

  -- The loop over the dependencies: the label of the first one that changed.
  unfoldable pub dirty_reason :
      (NodeKey → M S (Unit {0})) → NodeKey → NodeRecord S → List NodeKey → M S (Option String)
  unfolding after_one live
  dirty_reason ensure k r [] s = (ok none, s)
  dirty_reason ensure k r (d ∷ ds) s =
      after_one d (dirty_reason ensure k r ds)
        (maybe_changed_after ensure d (live k r s).verified_at s)
