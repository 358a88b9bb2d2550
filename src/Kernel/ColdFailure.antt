-- ===== src/Kernel/ColdFailure.antt =====
-- runtime.py, `get`: an evaluation that raises, of a query without a record.
use pyinc.Prelude.{
  ℕ, zero, suc, ◌≡◌, refl, sym, ◌∙◌, ap, Bool, true, false, Bool-cases, none, Option-cases, List,
  [], ◌∷◌, arith, inl, inr, if◌then◌else◌, length, ltb, is_some,
}
use mathlib.Core.Path.{subst}
use pyinc.Assoc.{find-remove}
use pyinc.Kernel.Node.{NodeKey, node_keys, same_key_refl}
use pyinc.Kernel.Program.{Error, Outcome, ok, raise, Program}
use pyinc.Kernel.State.{
  ExecutionFrame, Database, get_record, on_stack, discard_uncommitted_query, mark_frame_impure,
  record_dependency, evict_query_record,
}
use pyinc.Kernel.Verify.{failed, own_cycle, finish_get, get_within}
use pyinc.Kernel.Execute.{ensure_query}
use pyinc.Kernel.Requests.{
  least_recent, evict_one, evict_rounds, evict_query_nodes_if_needed, open_request, close_request,
  get,
}
use pyinc.Kernel.Steps.{keys}
use pyinc.Kernel.Keeps.{ensure_query-Keeps}
use pyinc.Kernel.Limit.{served, get-closed}

on_stack-empty : (k : NodeKey) (fs : List ExecutionFrame) → keys fs ≡ [] → on_stack k fs ≡ false
unfolding on_stack
on_stack-empty k [] e = refl
on_stack-empty k (f ∷ fs) e = absurd cc

module _ {S : Type 0} (k : NodeKey) where
  -- There is no record of `k`.
  abbrev pub IsCold : Database S → Type 0
  IsCold s = get_record k s ≡ none

  discard-IsCold :
      (s : Database S)
      → on_stack k s.execution_stack ≡ false
      → IsCold (discard_uncommitted_query k s)
  unfolding discard_uncommitted_query
  discard-IsCold s idle = ground (arith, idle, find-remove node_keys k k s.records, same_key_refl k)

  marked-IsCold :
      (b : Bool) (why : _) (s : Database S)
      → IsCold s
      → IsCold (if b then s else mark_frame_impure why s)
  unfolding mark_frame_impure
  marked-IsCold true why s h = h
  marked-IsCold false why s h = h

  finish_get-IsCold :
      (r : Outcome (Unit {0}) × Database S) (e : Error)
      → on_stack k r.1.execution_stack ≡ false
      → (finish_get false k r).0 ≡ raise e
      → IsCold (finish_get false k r).1
  unfolding finish_get failed record_dependency
  finish_get-IsCold (ok u, s) e idle raised = elim (Option-cases (get_record k s)) [
    | inl missing ↦ ground (arith, missing)
    | inr (r, found) ↦ absurd (ground (arith, found, raised))
  ]
  finish_get-IsCold (raise e', s) e idle raised =
      let s' = discard_uncommitted_query k s in
      marked-IsCold (own_cycle e' k s'.execution_stack) _ s' (discard-IsCold s idle)

  evict_one-IsCold : (s : Database S) (qs : List NodeKey) → IsCold s → IsCold (evict_one s qs)
  unfolding evict_one evict_query_record
  evict_one-IsCold s [] h = h
  evict_one-IsCold s (j ∷ js) h =
      ground (arith, find-remove node_keys (least_recent s j js) k s.records, h)

  evict_rounds-IsCold : (n limit : ℕ) (s : Database S) → IsCold s → IsCold (evict_rounds n limit s)
  unfolding evict_rounds
  evict_rounds-IsCold zero limit s h = h
  evict_rounds-IsCold (suc n) limit s h = elim (Bool-cases (ltb limit (length s.query_records))) [
    | inl over ↦ rw over (
        evict_rounds-IsCold n limit (evict_one s s.query_records)
          (evict_one-IsCold s s.query_records h))
    | inr within ↦ rw within h
  ]

  close_request-IsCold : (s : Database S) → IsCold s → IsCold (close_request s)
  unfolding close_request evict_query_nodes_if_needed
  close_request-IsCold s h = elim (Option-cases s.max_query_nodes) [
    | inl unlimited ↦ ground (arith, unlimited, h)
    | inr (limit, e) ↦
        let t = record s { request = none } in
        ground (arith, e, evict_rounds-IsCold (length s.query_records) limit t h)
  ]

  module _ (p : Program S) (depth : ℕ) (s : Database S) where
    -- what the request of a top-level `get` returns
    abbrev within : Outcome S × Database S
    within = get_within (ensure_query p depth) k (open_request s)

    get-within : s.request ≡ none → (get p depth k s).0 ≡ within.0
    unfolding get
    get-within idle = ground (arith, idle)

    within-cold : IsCold s → within ≡ finish_get false k (ensure_query p depth k (open_request s))
    unfolding get_within open_request
    within-cold cold =
        ap (λ o. finish_get (is_some o) k (ensure_query p depth k (open_request s))) cold

    alone-after :
        s.execution_stack ≡ []
        → on_stack k (ensure_query p depth k (open_request s)).1.execution_stack ≡ false
    unfolding open_request
    alone-after alone =
        on_stack-empty k (ensure_query p depth k (open_request s)).1.execution_stack
          ((ensure_query-Keeps p depth k (open_request s)).frames ∙ ap keys alone)

    -- If a `get` with no request open and nothing on the stack is of a query without a record, and
    -- raises, then the query has no record afterwards.
    pub get-raised-IsCold :
        (e : Error)
        → s.request ≡ none
        → s.execution_stack ≡ []
        → IsCold s
        → (get p depth k s).0 ≡ raise e
        → IsCold (get p depth k s).1
    get-raised-IsCold e idle alone cold raised =
        let same = within-cold cold in
        let left =
          finish_get-IsCold (ensure_query p depth k (open_request s)) e (alone-after alone)
            (sym (ap (λ x. x.0) same) ∙ sym (get-within idle) ∙ raised) in
        subst IsCold (sym (get-closed p depth k s idle))
          (close_request-IsCold (served p depth k s) (subst IsCold (sym (ap (λ x. x.1) same)) left))
