-- ===== src/Kernel/Keeps.antt =====
-- runtime.py, evaluations of any program, returned or raised: the frames on the stack (`try`/`finally`
-- of `_execute_query`), the request and the registries of the inputs.
use pyinc.Prelude.{
  ℕ, zero, suc, ◌≡◌, refl, Bool, true, false, Bool-cases, Option, none, some, Option-cases, List,
  [], ◌∷◌, String, inl, inr, is_some,
}
use native.Mathlib.Nat.{le_trans}
use pyinc.Kernel.Node.{Kind, NodeKey}
use pyinc.Kernel.Program.{
  Outcome, ok, raise, Body, ret, throw, read, call, report_untracked_read, Program,
}
use pyinc.Kernel.State.{
  NodeRecord, is_untracked, ExecutionFrame, Database, M, get_record, mark_frame_untracked,
  mark_query_used, on_stack,
}
use pyinc.Kernel.Verify.{
  read_input, after_one, get_within, run, recheck, after_recheck, maybe_changed_after, live,
  dirty_reason, sort_by_label, same_request,
}
use pyinc.Kernel.Execute.{
  execute_query, push_frame, finish, use_query, refresh, ensure_step, ensure_query, reuse_checked,
  reuse_verified, commit, has_reasons, after_verify,
}
use pyinc.Kernel.Commit.{decide-le}
use pyinc.Kernel.Steps.{
  keys, Keeps, keeps, Keeps-refl, Keeps-trans, read_input-Keeps, untracked-Keeps, finish_get-Keeps,
}

module _ {S : Type 0} where
  -- An evaluation that keeps things, and all that is built from it.
  module _ (ensure : NodeKey → M S (Unit {0}))
      (kept : (k : NodeKey) (s : Database S) → Keeps s (ensure k s).1) where
    pub get_within-Keeps : (k : NodeKey) (s : Database S) → Keeps s (get_within ensure k s).1
    unfolding get_within
    get_within-Keeps k s =
        Keeps-trans s (ensure k s).1 (get_within ensure k s).1 (kept k s)
          (finish_get-Keeps (is_some (get_record k s)) k (ensure k s))

    run-Keeps : (b : Body S) (s : Database S) → Keeps s (run ensure b s).1
    unfolding run
    run-Keeps (ret v) s = Keeps-refl s
    run-Keeps (throw e) s = Keeps-refl s
    run-Keeps (read i rest) s =
        let (o, s') = read_input i s in
        Keeps-trans s s' (run ensure (rest o) s').1 (read_input-Keeps i s) (run-Keeps (rest o) s')
    run-Keeps (call k rest) s =
        let (o, s') = get_within ensure k s in
        Keeps-trans s s' (run ensure (rest o) s').1 (get_within-Keeps k s) (run-Keeps (rest o) s')
    run-Keeps (report_untracked_read why rest) s =
        let s' = mark_frame_untracked why s in
        Keeps-trans s s' (run ensure rest s').1 (untracked-Keeps why s) (run-Keeps rest s')

    recheck-Keeps : (k : NodeKey) (s : Database S) → Keeps s (recheck ensure k s).1
    unfolding recheck
    recheck-Keeps k s = recheck_kind k.kind
      where
        recheck_kind :
            (κ : Kind)
            → Keeps s
                (elim κ as (λ x. Outcome (Unit {0}) × Database S) [
                  | Kind.input ↦ (ok tt, s)
                  | Kind.query ↦ ensure k s
                ]).1
        recheck_kind Kind.input = Keeps-refl s
        recheck_kind Kind.query = kept k s

    after_recheck-Keeps :
        (k : NodeKey) (v : ℕ) (r : Outcome (Unit {0}) × Database S)
        → Keeps r.1 (after_recheck k v r).1
    unfolding after_recheck
    after_recheck-Keeps k v (ok _, s) = Keeps-refl s
    after_recheck-Keeps k v (raise e, s) = Keeps-refl s

    maybe_changed_after-Keeps :
        (k : NodeKey) (v : ℕ) (s : Database S) → Keeps s (maybe_changed_after ensure k v s).1
    unfolding maybe_changed_after
    maybe_changed_after-Keeps k v s = elim (Bool-cases (is_some (get_record k s))) [
      | inl has ↦ rw has (
          Keeps-trans s (recheck ensure k s).1 (after_recheck k v (recheck ensure k s)).1
            (recheck-Keeps k s) (after_recheck-Keeps k v (recheck ensure k s)))
      | inr gone ↦ rw gone (Keeps-refl s)
    ]

    after_one-Keeps :
        (d : NodeKey) (more : M S (Option String))
        → ((s : Database S) → Keeps s (more s).1)
        → (r : Outcome Bool × Database S) → Keeps r.1 (after_one d more r).1
    unfolding after_one
    after_one-Keeps d more h (ok true, s) = Keeps-refl s
    after_one-Keeps d more h (ok false, s) = h s
    after_one-Keeps d more h (raise e, s) = Keeps-refl s

    dirty_reason-Keeps :
        (k : NodeKey) (r : NodeRecord S) (ds : List NodeKey) (s : Database S)
        → Keeps s (dirty_reason ensure k r ds s).1
    unfolding dirty_reason
    dirty_reason-Keeps k r [] s = Keeps-refl s
    dirty_reason-Keeps k r (d ∷ ds) s =
        let checked = maybe_changed_after ensure d (live k r s).verified_at s in
        Keeps-trans s checked.1 (dirty_reason ensure k r (d ∷ ds) s).1
          (maybe_changed_after-Keeps d (live k r s).verified_at s)
          (after_one-Keeps d (dirty_reason ensure k r ds) (dirty_reason-Keeps k r ds) checked)

    module _ (p : Program S) where
      committed-Keeps :
          (k : NodeKey) (previous : Option (NodeRecord S)) (reason : String)
          (frame : ExecutionFrame) (rest : List ExecutionFrame) (v : S) (s s' : Database S)
          → Keeps (push_frame k s) s'
          → keys rest ≡ keys s.execution_stack
          → Keeps s (commit p k previous reason frame v (record s' { execution_stack = rest }))
      unfolding commit push_frame
      committed-Keeps k previous reason frame rest v s s' h frames = record {
        frames = frames;
        revision = le_trans h.revision (
            decide-le p.values (p.policy k.identity) previous (has_reasons frame.untracked_reasons)
              v (p.values.fingerprint_snapshot v) s'.revision);
        request = h.request;
        input_records = h.input_records;
        inputs_by_key = h.inputs_by_key;
        max_query_nodes = h.max_query_nodes;
      }

      popped-Keeps :
          (k : NodeKey) (rest : List ExecutionFrame) (s s' : Database S)
          → Keeps (push_frame k s) s'
          → keys rest ≡ keys s.execution_stack
          → Keeps s (record s' { execution_stack = rest })
      unfolding push_frame
      popped-Keeps k rest s s' h frames = record {
        frames = frames;
        revision = h.revision;
        request = h.request;
        input_records = h.input_records;
        inputs_by_key = h.inputs_by_key;
        max_query_nodes = h.max_query_nodes;
      }

      finish-Keeps :
          (k : NodeKey) (previous : Option (NodeRecord S)) (reason : String) (s : Database S)
          (fs : List ExecutionFrame) (o : Outcome S) (s' : Database S)
          → Keeps (push_frame k s) s'
          → keys fs ≡ k ∷ keys s.execution_stack
          → Keeps s (finish p k previous reason fs o s').1
      unfolding finish
      finish-Keeps k previous reason s [] o s' h frames = absurd cc
      finish-Keeps k previous reason s (f ∷ fs) (ok v) s' h frames =
          committed-Keeps k previous reason f fs v s s' h cc
      finish-Keeps k previous reason s (f ∷ fs) (raise e) s' h frames = popped-Keeps k fs s s' h cc

      execute_query-Keeps :
          (k : NodeKey) (previous : Option (NodeRecord S)) (reason : String) (s : Database S)
          → Keeps s (execute_query p ensure k previous reason s).1
      unfolding execute_query push_frame
      execute_query-Keeps k previous reason s =
          let body = p.body k.identity k.args_digest in
          let (o, s') = run ensure body (push_frame k s) in
          let kept_run = run-Keeps body (push_frame k s) in
          finish-Keeps k previous reason s s'.execution_stack o s' kept_run kept_run.frames

      use_query-Keeps :
          (k : NodeKey) (r : Outcome (Unit {0}) × Database S) → Keeps r.1 (use_query k r).1
      unfolding use_query
      use_query-Keeps k (ok _, s) = keeps s (mark_query_used k s) refl refl refl refl refl refl
      use_query-Keeps k (raise e, s) = Keeps-refl s

      used-Keeps :
          (k : NodeKey) (previous : Option (NodeRecord S)) (reason : String) (s : Database S)
          → Keeps s (use_query k (execute_query p ensure k previous reason s)).1
      used-Keeps k previous reason s =
          let r = execute_query p ensure k previous reason s in
          Keeps-trans s r.1 (use_query k r).1 (execute_query-Keeps k previous reason s)
            (use_query-Keeps k r)

      after_verify-Keeps :
          (k : NodeKey) (r : NodeRecord S) (v : Outcome (Option String) × Database S)
          → Keeps v.1 (after_verify p ensure k r v).1
      unfolding after_verify reuse_verified
      after_verify-Keeps k r (ok none, s) =
          keeps s (reuse_verified k (live k r s) s) refl refl refl refl refl refl
      after_verify-Keeps k r (ok (some why), s) = used-Keeps k (some (live k r s)) why s
      after_verify-Keeps k r (raise e, s) = Keeps-refl s

      refresh-Keeps :
          (k : NodeKey) (r : NodeRecord S) (s : Database S) → Keeps s (refresh p ensure k r s).1
      unfolding refresh reuse_checked
      refresh-Keeps k r s = elim (Bool-cases (same_request r.checked_in_request s.request)) [
        | inl now ↦ rw now (keeps s (reuse_checked k r s) refl refl refl refl refl refl)
        | inr earlier ↦ elim (Bool-cases (is_untracked r)) [
          | inl impure ↦ rw (earlier, impure) (used-Keeps k (some r) "untracked dependency" s)
          | inr pure ↦
              let v = dirty_reason ensure k r (sort_by_label r.dependencies) s in
              rw (earlier, pure)
                (Keeps-trans s v.1 (after_verify p ensure k r v).1
                  (dirty_reason-Keeps k r (sort_by_label r.dependencies) s)
                  (after_verify-Keeps k r v))
        ]
      ]

      ensure_step-Keeps : (k : NodeKey) (s : Database S) → Keeps s (ensure_step p ensure k s).1
      unfolding ensure_step
      ensure_step-Keeps k s = elim (Bool-cases (on_stack k s.execution_stack)) [
        | inl running ↦ rw running (Keeps-refl s)
        | inr idle ↦ elim (Option-cases (get_record k s)) [
          | inl cold ↦ rw (idle, cold) (used-Keeps k none "cold execute" s)
          | inr (r, found) ↦ rw (idle, found) (refresh-Keeps k r s)
        ]
      ]

  -- The evaluation of a query, whatever its function does and whether it returns or raises, ends
  -- with the frames that were on the stack before, in the same request, with the inputs registered
  -- as they were and at a revision that is not an earlier one.
  pub ensure_query-Keeps :
      (p : Program S) (depth : ℕ) (k : NodeKey) (s : Database S)
      → Keeps s (ensure_query p depth k s).1
  unfolding ensure_query
  ensure_query-Keeps p zero k s = Keeps-refl s
  ensure_query-Keeps p (suc depth) k s =
      ensure_step-Keeps (ensure_query p depth) (ensure_query-Keeps p depth) p k s
