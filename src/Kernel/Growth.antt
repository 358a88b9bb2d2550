-- ===== src/Kernel/Growth.antt =====
-- runtime.py, evaluations of any program, returned or raised: records stay where they are, and their keys
-- are in the set of the stored queries.
use pyinc.Prelude.{
  ℕ, zero, suc, ◌≡◌, refl, ap, Bool, true, false, Bool-cases, Option, none, some, Option-cases,
  List, [], ◌∷◌, String, inl, inr, is_some,
}
use pyinc.Kernel.Node.{Kind, NodeKey}
use pyinc.Kernel.Program.{
  Outcome, ok, raise, Body, ret, throw, read, call, report_untracked_read, Program,
}
use pyinc.Kernel.State.{
  reused, NodeRecord, is_untracked, ExecutionFrame, Database, M, get_record, mark_frame_untracked,
  mark_query_used, on_stack,
}
use pyinc.Kernel.Verify.{
  read_input, after_one, get_within, run, recheck, after_recheck, maybe_changed_after, live,
  dirty_reason, sort_by_label, same_request,
}
use pyinc.Kernel.Execute.{
  execute_query, push_frame, finish, use_query, refresh, ensure_step, ensure_query, reuse_checked,
  reuse_verified, commit, after_verify, decide, has_reasons, committed_record,
}
use pyinc.Kernel.Indexed.{
  Grows, Grows-trans, same_records, Grows-refl, rewritten, committed, read_input-Grows,
  finish_get-Grows,
}

module _ {S : Type 0} where
  module _ (ensure : NodeKey → M S (Unit {0}))
      (grows : (k : NodeKey) (s : Database S) → Grows s (ensure k s).1) where
    pub get_within-Grows : (k : NodeKey) (s : Database S) → Grows s (get_within ensure k s).1
    unfolding get_within
    get_within-Grows k s = finish_get-Grows k s (ensure k s) (grows k s)

    run-Grows : (b : Body S) (s : Database S) → Grows s (run ensure b s).1
    unfolding run mark_frame_untracked
    run-Grows (ret v) s = Grows-refl s
    run-Grows (throw e) s = Grows-refl s
    run-Grows (read i rest) s =
        let (o, s') = read_input i s in
        Grows-trans s s' (run ensure (rest o) s').1 (read_input-Grows i s) (run-Grows (rest o) s')
    run-Grows (call k rest) s =
        let (o, s') = get_within ensure k s in
        Grows-trans s s' (run ensure (rest o) s').1 (get_within-Grows k s) (run-Grows (rest o) s')
    run-Grows (report_untracked_read why rest) s =
        let s' = mark_frame_untracked why s in
        Grows-trans s s' (run ensure rest s').1 (same_records s s' refl refl) (run-Grows rest s')

    recheck-Grows : (k : NodeKey) (s : Database S) → Grows s (recheck ensure k s).1
    unfolding recheck
    recheck-Grows k s = of_kind k.kind
      where
        of_kind :
            (κ : Kind)
            → Grows s
                (elim κ as (λ x. Outcome (Unit {0}) × Database S) [
                  | Kind.input ↦ (ok tt, s)
                  | Kind.query ↦ ensure k s
                ]).1
        of_kind Kind.input = Grows-refl s
        of_kind Kind.query = grows k s

    after_recheck-Grows :
        (k : NodeKey) (v : ℕ) (r : Outcome (Unit {0}) × Database S)
        → Grows r.1 (after_recheck k v r).1
    unfolding after_recheck
    after_recheck-Grows k v (ok _, s) = Grows-refl s
    after_recheck-Grows k v (raise e, s) = Grows-refl s

    changed-Grows :
        (k : NodeKey) (v : ℕ) (s : Database S) → Grows s (maybe_changed_after ensure k v s).1
    unfolding maybe_changed_after
    changed-Grows k v s = elim (Bool-cases (is_some (get_record k s))) [
      | inl has ↦ rw has (
          Grows-trans s (recheck ensure k s).1 (after_recheck k v (recheck ensure k s)).1
            (recheck-Grows k s) (after_recheck-Grows k v (recheck ensure k s)))
      | inr gone ↦ rw gone (Grows-refl s)
    ]

    after_one-Grows :
        (d : NodeKey) (more : M S (Option String))
        → ((s : Database S) → Grows s (more s).1)
        → (r : Outcome Bool × Database S) → Grows r.1 (after_one d more r).1
    unfolding after_one
    after_one-Grows d more h (ok true, s) = Grows-refl s
    after_one-Grows d more h (ok false, s) = h s
    after_one-Grows d more h (raise e, s) = Grows-refl s

    dirty_reason-Grows :
        (k : NodeKey) (r : NodeRecord S) (ds : List NodeKey) (s : Database S)
        → Grows s (dirty_reason ensure k r ds s).1
    unfolding dirty_reason
    dirty_reason-Grows k r [] s = Grows-refl s
    dirty_reason-Grows k r (d ∷ ds) s =
        let checked = maybe_changed_after ensure d (live k r s).verified_at s in
        Grows-trans s checked.1 (dirty_reason ensure k r (d ∷ ds) s).1
          (changed-Grows d (live k r s).verified_at s)
          (after_one-Grows d (dirty_reason ensure k r ds) (dirty_reason-Grows k r ds) checked)

    module _ (p : Program S) where
      finish-Grows :
          (k : NodeKey) (previous : Option (NodeRecord S)) (reason : String)
          (fs : List ExecutionFrame) (o : Outcome S) (s : Database S)
          → Grows s (finish p k previous reason fs o s).1
      unfolding finish commit
      finish-Grows k previous reason [] (ok v) s = Grows-refl s
      finish-Grows k previous reason [] (raise e) s = Grows-refl s
      finish-Grows k previous reason (f ∷ fs) (ok v) s =
          let digest = p.values.fingerprint_snapshot v in
          let c =
            decide p.values (p.policy k.identity) previous (has_reasons f.untracked_reasons) v
              digest s.revision in
          committed k (committed_record c f reason v digest s.request) s
            (commit p k previous reason f v (record s { execution_stack = fs })) refl refl
      finish-Grows k previous reason (f ∷ fs) (raise e) s =
          same_records s (record s { execution_stack = fs }) refl refl

      execute_query-Grows :
          (k : NodeKey) (previous : Option (NodeRecord S)) (reason : String) (s : Database S)
          → Grows s (execute_query p ensure k previous reason s).1
      unfolding execute_query push_frame
      execute_query-Grows k previous reason s =
          let pushed = push_frame k s in
          let (o, s') = run ensure (p.body k.identity k.args_digest) pushed in
          let ended = (finish p k previous reason s'.execution_stack o s').1 in
          Grows-trans s pushed ended (same_records s pushed refl refl) (
            Grows-trans pushed s' ended (run-Grows (p.body k.identity k.args_digest) pushed)
              (finish-Grows k previous reason s'.execution_stack o s'))

      use_query-Grows :
          (k : NodeKey) (r : Outcome (Unit {0}) × Database S) → Grows r.1 (use_query k r).1
      unfolding use_query mark_query_used
      use_query-Grows k (ok _, s) = same_records s (mark_query_used k s) refl refl
      use_query-Grows k (raise e, s) = Grows-refl s

      used-Grows :
          (k : NodeKey) (previous : Option (NodeRecord S)) (reason : String) (s : Database S)
          → Grows s (use_query k (execute_query p ensure k previous reason s)).1
      used-Grows k previous reason s =
          let r = execute_query p ensure k previous reason s in
          Grows-trans s r.1 (use_query k r).1 (execute_query-Grows k previous reason s)
            (use_query-Grows k r)

      after_verify-Grows :
          (k : NodeKey) (r : NodeRecord S) (v : Outcome (Option String) × Database S)
          → is_some (get_record k v.1) ≡ true
          → Grows v.1 (after_verify p ensure k r v).1
      unfolding after_verify reuse_verified mark_query_used
      after_verify-Grows k r (ok none, s) has =
          let again = record (live k r s) {
            verified_at = s.revision;
            last_decision = reused;
            reason = "dependencies unchanged";
            checked_in_request = s.request;
          } in
          rewritten k again s (reuse_verified k (live k r s) s) has refl refl
      after_verify-Grows k r (ok (some why), s) has = used-Grows k (some (live k r s)) why s
      after_verify-Grows k r (raise e, s) has = Grows-refl s

      refresh-Grows :
          (k : NodeKey) (r : NodeRecord S) (s : Database S)
          → is_some (get_record k s) ≡ true
          → Grows s (refresh p ensure k r s).1
      unfolding refresh reuse_checked mark_query_used
      refresh-Grows k r s has = elim (Bool-cases (same_request r.checked_in_request s.request)) [
        | inl now ↦
            let again = record r {
              last_decision = reused;
              reason = "already checked in current request";
            } in
            rw now (rewritten k again s (reuse_checked k r s) has refl refl)
        | inr earlier ↦ elim (Bool-cases (is_untracked r)) [
          | inl impure ↦ rw (earlier, impure) (used-Grows k (some r) "untracked dependency" s)
          | inr pure ↦
              let v = dirty_reason ensure k r (sort_by_label r.dependencies) s in
              let checked = dirty_reason-Grows k r (sort_by_label r.dependencies) s in
              rw (earlier, pure)
                (Grows-trans s v.1 (after_verify p ensure k r v).1 checked
                  (after_verify-Grows k r v (checked.stored k has)))
        ]
      ]

      ensure_step-Grows : (k : NodeKey) (s : Database S) → Grows s (ensure_step p ensure k s).1
      unfolding ensure_step
      ensure_step-Grows k s = elim (Bool-cases (on_stack k s.execution_stack)) [
        | inl running ↦ rw running (Grows-refl s)
        | inr idle ↦ elim (Option-cases (get_record k s)) [
          | inl cold ↦ rw (idle, cold) (used-Grows k none "cold execute" s)
          | inr (r, found) ↦ rw (idle, found) (refresh-Grows k r s (ap is_some found))
        ]
      ]

  pub ensure_query-Grows :
      (p : Program S) (depth : ℕ) (k : NodeKey) (s : Database S)
      → Grows s (ensure_query p depth k s).1
  unfolding ensure_query
  ensure_query-Grows p zero k s = Grows-refl s
  ensure_query-Grows p (suc depth) k s =
      ensure_step-Grows (ensure_query p depth) (ensure_query-Grows p depth) p k s
