-- ===== src/Kernel/Ensure.antt =====
-- runtime.py, `_ensure_query`: the invariant through the evaluation of one query.
use pyinc.Prelude.{
  ℕ, suc, ◌≤◌, ◌<◌, ◌≡◌, ◌≢◌, refl, sym, ◌∙◌, ap, true, Option, none, some, some_eq, [], String,
  arith, All, All-map, All-both, All-In, In, Bool-cases, Option-cases, inl, inr,
}
use native.Mathlib.Nat.{le_refl}
use mathlib.Core.Path.{subst}
use pyinc.Assoc.{find}
use pyinc.Kernel.Node.{Kind, NodeKey, node_keys}
use pyinc.Kernel.Program.{Outcome, ok, Program}
use pyinc.Kernel.State.{
  NodeRecord, Database, M, ExecutionFrame, reused, is_untracked, get_record, put_record,
  mark_query_used,
}
use pyinc.Kernel.Verify.{live, dirty_reason, sort_by_label, same_request}
use pyinc.Kernel.Execute.{
  commit, push_frame, finish, execute_query, use_query, count_reuse, reuse_checked, reuse_verified,
  after_verify, refresh, ensure_step,
}
use pyinc.Kernel.Fresh.{World, Rank, rank_of, value, node_value, IsRanked, value-run}
use pyinc.Kernel.Invariant.{core, QueryOk, Agrees, EdgeOk, put-Inv}
use pyinc.Kernel.Settled.{Later, Later-trans, put-Later, put-Settled_self, Above, not-on_stack}
use pyinc.Kernel.Run.{Safe, IsInv, Ensured, Ensures, Settled-value}
use pyinc.Kernel.Evaluate.{run-Ran}
use pyinc.Kernel.Recheck.{Ready, IsGreen, dirty_reason-green}
use pyinc.Kernel.Order.{sort-All, sort-All_inv}
use pyinc.Kernel.Commit.{IsExact, commit-Inv, commit-Later, commit-Settled}

same_request-eq : (a b : Option ℕ) → same_request a b ≡ true → a ≡ b
unfolding same_request
same_request-eq a b h = ground arith

module _ {S : Type 0} (p : Program S) (rank : Rank) (digests : String → String) (W : ℕ → World S)
    (base : ℕ) (exact : IsExact p) (ranked : IsRanked rank p)
    (safe : (identity args : String) → Safe p rank digests (W base) (p.body identity args))
    (k : NodeKey) (is_query : k.kind ≡ Kind.query) (ensure : NodeKey → M S (Unit {0}))
    (serves : Ensures p rank digests W base (rank_of rank k) ensure) where
  abbrev pub EnsuredHere : Database S → Outcome (Unit {0}) × Database S → Type 0
  EnsuredHere = Ensured p rank digests W base k

  abbrev new_frame : ExecutionFrame
  new_frame = record { key = k; dependencies = []; untracked_reasons = []; checkpointable = true }

  -- What an evaluation starts from.
  pub record Start (s : Database S) : Type 0 where
    pub inv : IsInv p rank digests W base s
    pub above : Above rank (suc (rank_of rank k)) s.execution_stack
    pub requested : s.request ≢ none

  execute_query-Ensured :
      (previous : Option (NodeRecord S)) (why : String) (s : Database S)
      → Start s
      → get_record k s ≡ previous
      → EnsuredHere s (execute_query p ensure k previous why s)
  unfolding execute_query push_frame finish commit
  execute_query-Ensured previous why s h known =
      let r =
        run-Ran p rank digests W base (rank_of rank k) ensure serves
          (p.body k.identity k.args_digest) (push_frame k s) new_frame s.execution_stack
          (safe k.identity k.args_digest) (ranked k.identity k.args_digest) refl h.inv
          (
            le_refl (rank_of rank k),
            All-map (λ (x : ExecutionFrame). suc (rank_of rank k) ≤ rank_of rank x.key)
                (λ x. rank_of rank k ≤ rank_of rank x.key) s.execution_stack (λ x le. omega arith)
                h.above,
          )
          h.requested tt tt in
      let s' : Database S = record r.after { execution_stack = s.execution_stack } in
      let known' : find node_keys k r.after.records ≡ previous =
        r.later.untouched k (λ q. le_refl (rank_of rank k)) ∙ known in
      let requested' : s'.request ≢ none = λ q. h.requested (sym r.later.request ∙ q) in
      let correct = value-run rank p (W base) k ranked ∙ r.correct in
      let covers : (w : World S)
          → All (λ d. node_value rank p w d ≡ node_value rank p (W base) d) r.frame.dependencies
          → value rank p w k ≡ ok r.snapshot =
        λ w c. value-run rank p w k ranked ∙ r.covers w c in
      record {
        after = commit p k previous why r.frame r.snapshot s';
        returns =
            ap (λ x. finish p k previous why x.1.execution_stack x.0 x.1) r.returns
            ∙ ap (λ st. finish p k previous why st (ok r.snapshot) r.after) r.stack;
        inv =
            commit-Inv p rank digests W base exact ranked k is_query s' r.frame r.snapshot r.inv
              requested' correct r.settled r.lower covers previous known' why;
        later = Later-trans rank (omega arith) r.later (
            commit-Later p rank digests W base exact ranked k is_query s' r.frame r.snapshot r.inv
              requested' correct r.settled r.lower covers previous known' why);
        stack = refl;
        settled =
            commit-Settled p rank digests W base exact ranked k is_query s' r.frame r.snapshot r.inv
              requested' correct r.settled r.lower covers previous known' why;
      }

  use_query-Ensured :
      (s : Database S) (result : Outcome (Unit {0}) × Database S)
      → EnsuredHere s result
      → EnsuredHere s (use_query k result)
  unfolding use_query mark_query_used
  use_query-Ensured s result e = record {
    after = mark_query_used k e.after;
    returns = ap (use_query k) e.returns;
    inv = e.inv;
    later = e.later;
    stack = e.stack;
    settled = e.settled;
  }

  -- A record that keeps its value is stored again.
  module _ (s : Database S) (h : Start s) (r r' : NodeRecord S) (found : get_record k s ≡ some r)
      (same : r'.snapshot ≡ r.snapshot) (not_moved : r'.changed_at ≡ r.changed_at)
      (checked : r'.checked_in_request ≡ s.request)
      (fits : QueryOk p rank digests W base s.revision s.request_counter s.request k r')
      (edges : All (EdgeOk p rank digests W s.records r'.verified_at) r'.dependencies) where
    keep-Ensured : EnsuredHere s (ok tt, mark_query_used k (count_reuse (put_record k r' s)))
    unfolding mark_query_used count_reuse
    keep-Ensured = record {
      after = mark_query_used k (count_reuse (put_record k r' s));
      returns = refl;
      inv =
          put-Inv p rank digests W base (core s) h.inv k r' s.revision s.query_records is_query
            (le_refl s.revision) fits edges
            (λ v le edge at. edge r found (omega (arith, at, not_moved)) ∙ ap ok (sym same))
            h.inv.evictable;
      later =
          put-Later rank (core s) k r' s.revision s.query_records (le_refl s.revision) is_query
            checked;
      stack = refl;
      settled =
          put-Settled_self rank (core s) k r' s.revision s.query_records (le_refl s.revision)
            is_query checked;
    }

  reuse_checked-Ensured :
      (s : Database S) (r : NodeRecord S)
      → Start s
      → get_record k s ≡ some r
      → r.checked_in_request ≡ s.request
      → EnsuredHere s (ok tt, reuse_checked k r s)
  unfolding reuse_checked
  reuse_checked-Ensured s r h found checked =
      let (q, edges) = h.inv.queries k r is_query found in
      keep-Ensured s h r
        (record r { last_decision = reused; reason = "already checked in current request" }) found
        refl refl checked
        (record {
          verified = q.verified;
          current = q.current;
          asked = q.asked;
          was_asked = q.was_asked;
          digested = q.digested;
          lower = q.lower;
          covers = q.covers;
        })
        edges

  reuse_verified-Ensured :
      (s : Database S) (r : NodeRecord S)
      → Start s
      → get_record k s ≡ some r
      → All (IsGreen p rank digests W base k is_query r ensure serves s) r.dependencies
      → EnsuredHere s (ok tt, reuse_verified k r s)
  unfolding reuse_verified
  reuse_verified-Ensured s r h found green =
      let (q, edges) = h.inv.queries k r is_query found in
      let now = h.inv.still s.revision h.inv.started in
      keep-Ensured s h r
        (record r {
          verified_at = s.revision;
          last_decision = reused;
          reason = "dependencies unchanged";
          checked_in_request = s.request;
        })
        found refl refl refl
        (record {
          verified = le_refl s.revision;
          current = λ e. h.inv.started;
          asked = h.inv.open_request;
          was_asked = h.requested;
          digested = q.digested;
          lower = q.lower;
          covers = λ w c. q.covers w (
              All-both (Agrees p rank digests W w s.revision)
                (IsGreen p rank digests W base k is_query r ensure serves s)
                (Agrees p rank digests W w r.verified_at) r.dependencies
                (λ d e g. e ∙ ap (λ x. node_value rank p x d) now ∙ g.1) c green);
        })
        (All-map (IsGreen p rank digests W base k is_query r ensure serves s)
          (EdgeOk p rank digests W s.records s.revision) r.dependencies
          (λ d g rd at le.
            ap (λ x. node_value rank p x d) now
            ∙ Settled-value p rank digests W base (core s) d h.inv g.0
            ∙ ap (λ (x : NodeRecord S). ok x.snapshot) (some_eq (sym g.0.at ∙ at)))
          green)

  -- What is ensured from a later state is ensured from the first one.
  from_Later :
      (s s' : Database S) (result : Outcome (Unit {0}) × Database S)
      → Later rank (rank_of rank k) (core s) (core s')
      → s'.execution_stack ≡ s.execution_stack
      → EnsuredHere s' result
      → EnsuredHere s result
  from_Later s s' result later stack e = record {
    after = e.after;
    returns = e.returns;
    inv = e.inv;
    later = Later-trans rank (omega arith) later e.later;
    stack = e.stack ∙ stack;
    settled = e.settled;
  }

  module _ (r : NodeRecord S) where
    abbrev ReadyHere : Database S → Type 0
    ReadyHere = Ready p rank digests W base k is_query r ensure serves

    live_self : (s : Database S) → get_record k s ≡ some r → live k r s ≡ r
    unfolding live
    live_self s found = ground (arith, found)

    after_verify-Ensured :
        (s : Database S) (answer : Option String)
        → Start s
        → get_record k s ≡ some r
        → (answer ≡ none
            → All
                (IsGreen p rank digests W base k is_query r ensure serves s)
                (sort_by_label r.dependencies))
        → EnsuredHere s (after_verify p ensure k r (ok answer, s))
    unfolding after_verify
    after_verify-Ensured s none h found green = rw (live_self s found) (
        reuse_verified-Ensured s r h found (
          sort-All_inv (IsGreen p rank digests W base k is_query r ensure serves s) r.dependencies
            (green refl)))
    after_verify-Ensured s (some why) h found green = rw (live_self s found) (
        use_query-Ensured s (execute_query p ensure k (some r) why s)
          (execute_query-Ensured (some r) why s h found))

    verify-Ensured :
        (s : Database S)
        → Start s
        → get_record k s ≡ some r
        → EnsuredHere s
            (after_verify p ensure k r (dirty_reason ensure k r (sort_by_label r.dependencies) s))
    verify-Ensured s h found =
        let (q, edges) = h.inv.queries k r is_query found in
        let c =
          dirty_reason-green p rank digests W base k is_query r ensure serves
            (sort_by_label r.dependencies) s
            (sort-All (λ d. d.kind ≡ Kind.query → rank_of rank d < rank_of rank k) r.dependencies
              q.lower)
            (sort-All (λ d. In d r.dependencies) r.dependencies
              (All-In (λ d. In d r.dependencies) r.dependencies (λ d i. i)))
            (record {
              inv = h.inv;
              above =
                  All-map (λ (x : ExecutionFrame). suc (rank_of rank k) ≤ rank_of rank x.key)
                    (λ x. rank_of rank k ≤ rank_of rank x.key) s.execution_stack
                    (λ x le. omega arith) h.above;
              requested = h.requested;
              record_of = found;
            }) in
        rw c.returns (
          from_Later s c.after (after_verify p ensure k r (ok c.answer, c.after)) c.later c.stack (
            after_verify-Ensured c.after c.answer
              (record {
                inv = c.ready.inv;
                above = subst (Above rank (suc (rank_of rank k))) (sym c.stack) h.above;
                requested = c.ready.requested;
              })
              c.ready.record_of c.means))

    refresh-Ensured :
        (s : Database S)
        → Start s
        → get_record k s ≡ some r
        → EnsuredHere s (refresh p ensure k r s)
    unfolding refresh
    refresh-Ensured s h found = elim (Bool-cases (same_request r.checked_in_request s.request)) [
      | inl same ↦
          rw same (
            reuse_checked-Ensured s r h found (same_request-eq r.checked_in_request s.request same))
      | inr other ↦ elim (Bool-cases (is_untracked r)) [
        | inl untracked ↦
            rw (other, untracked)
              (use_query-Ensured s (execute_query p ensure k (some r) "untracked dependency" s)
                (execute_query-Ensured (some r) "untracked dependency" s h found))
        | inr tracked ↦ rw (other, tracked) (verify-Ensured s h found)
      ]
    ]

  pub ensure_step-Ensured : (s : Database S) → Start s → EnsuredHere s (ensure_step p ensure k s)
  unfolding ensure_step
  ensure_step-Ensured s h = elim (Option-cases (get_record k s)) [
    | inl cold ↦
        rw (not-on_stack rank k s.execution_stack h.above, cold)
          (use_query-Ensured s (execute_query p ensure k none "cold execute" s)
            (execute_query-Ensured none "cold execute" s h cold))
    | inr (r, found) ↦
        rw (not-on_stack rank k s.execution_stack h.above, found) (refresh-Ensured r s h found)
  ]
