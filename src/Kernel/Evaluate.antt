-- ===== src/Kernel/Evaluate.antt =====
-- runtime.py, the run of a query's function inside a request, by induction on its calls.
use pyinc.Prelude.{
  ℕ, suc, ◌≤◌, ◌<◌, ◌≡◌, ◌≢◌, refl, sym, ◌∙◌, ap, none, some, List, [], ◌∷◌, ◌++◌, String, All,
  All-map,
}
use native.Mathlib.Nat.{le_trans}
use mathlib.Core.Path.{subst}
use pyinc.Kernel.Node.{Kind, NodeKey, prospective_input_key, add}
use pyinc.Kernel.Program.{
  Outcome, ok, raise, key_error, Program, Body, ret, throw, read, call, report_untracked_read,
}
use pyinc.Kernel.State.{
  Database, M, ExecutionFrame, record_dependency, mark_frame_untracked, change_frame,
}
use pyinc.Kernel.Verify.{run}
use pyinc.Kernel.Fresh.{World, Rank, rank_of, value, run_fresh, Ranked}
use pyinc.Kernel.Invariant.{core}
use pyinc.Kernel.Settled.{Settled, Later-refl, Later-trans, Above, All-add}
use pyinc.Kernel.Run.{
  Safe, IsInv, Ensures, Ran, Settled-value, extend, read_input-ok, input-Settled, get_within-ok,
  query-value,
}

module _ {S : Type 0} (p : Program S) (rank : Rank) (digests : String → String) (W : ℕ → World S)
    (base : ℕ) (m : ℕ) (ensure : NodeKey → M S (Unit {0}))
    (serves : Ensures p rank digests W base m ensure) where
  abbrev IsLowerFrame : ExecutionFrame → Type 0
  IsLowerFrame f = All (λ d. d.kind ≡ Kind.query → rank_of rank d < m) f.dependencies

  abbrev RanHere :
      Body S → Database S → ExecutionFrame → List ExecutionFrame → Outcome S × Database S → Type 0
  RanHere = Ran p rank digests W base m

  abbrev with_edge : NodeKey → ExecutionFrame → ExecutionFrame
  with_edge d f = record f { dependencies = add d f.dependencies }

  -- The stack under a recorded edge.
  stack-record_dependency :
      (d : NodeKey) (s : Database S) (f : ExecutionFrame) (fs : List ExecutionFrame)
      → s.execution_stack ≡ f ∷ fs
      → (record_dependency d s).execution_stack ≡ with_edge d f ∷ fs
  unfolding record_dependency
  stack-record_dependency d s f fs e = ap (change_frame (with_edge d)) e

  core-record_dependency : (d : NodeKey) (s : Database S) → core (record_dependency d s) ≡ core s
  unfolding record_dependency
  core-record_dependency d s = refl

  pub run-Ran :
      (b : Body S) (s : Database S) (f : ExecutionFrame) (fs : List ExecutionFrame)
      → Safe p rank digests (W base) b
      → Ranked rank m b
      → s.execution_stack ≡ f ∷ fs
      → IsInv p rank digests W base s
      → Above rank m (f ∷ fs)
      → s.request ≢ none
      → All (Settled (core s)) f.dependencies
      → IsLowerFrame f
      → RanHere b s f fs (run ensure b s)
  unfolding run run_fresh record_dependency mark_frame_untracked prospective_input_key
  run-Ran (ret v) s f fs safe ranked st inv above req settled lower = record {
    after = s;
    frame = f;
    snapshot = v;
    returns = refl;
    stack = st;
    correct = refl;
    inv = inv;
    later = Later-refl rank m (core s);
    settled = settled;
    lower = lower;
    covers = λ w h. refl;
    grows = λ w h. h;
  }
  run-Ran (throw e) s f fs safe ranked st inv above req settled lower = absurd safe
  run-Ran (read i rest) s f fs safe ranked st inv above req settled lower =
      let (v, set) = safe.0 in
      let d = prospective_input_key i.key in
      rw (read_input-ok p rank digests W base i s v inv set safe.1) (
        extend p rank digests W base m (read i rest) (rest (ok v)) s (record_dependency d s) f fs d
          v (run ensure (rest (ok v)) (record_dependency d s))
          (λ w known. ap (λ o. run_fresh (value rank p w) w (rest o)) known)
          (ap (λ o. elim o [ none ↦ raise (key_error i.key) | some x ↦ ok x ]) set)
          (Later-refl rank m (core s))
          (run-Ran (rest (ok v)) (record_dependency d s) (with_edge d f) fs (safe.2 v set)
            (ranked (ok v)) (stack-record_dependency d s f fs st) inv above req
            (All-add (Settled (core s)) d f.dependencies
              (input-Settled p rank digests W base i s v inv set) settled)
            (All-add (λ j. j.kind ≡ Kind.query → rank_of rank j < m) d f.dependencies (λ e. cc)
              lower)))
  run-Ran (call k rest) s f fs safe ranked st inv above req settled lower =
      let above' : Above rank (suc (rank_of rank k)) s.execution_stack =
        subst (Above rank (suc (rank_of rank k))) (sym st) (
          All-map (λ (x : ExecutionFrame). m ≤ rank_of rank x.key)
            (λ x. suc (rank_of rank k) ≤ rank_of rank x.key) (f ∷ fs) (λ x h. le_trans ranked.0 h)
            above) in
      let e = serves k s safe.0 ranked.0 inv above' req in
      let v = e.settled.found.snapshot in
      let s' = record_dependency k e.after in
      let settled_value = Settled-value p rank digests W base (core e.after) k e.inv e.settled in
      let in_world = query-value p rank digests W base k (W base) (ok v) safe.0 settled_value in
      rw (get_within-ok p rank digests W base ensure k s e) (
        extend p rank digests W base m (call k rest) (rest (ok v)) s s' f fs k v
          (run ensure (rest (ok v)) s')
          (λ w known.
            ap (λ o. run_fresh (value rank p w) w (rest o))
              (query-value p rank digests W base k w (ok v) safe.0 known))
          settled_value (Later-trans rank ranked.0 e.later (Later-refl rank m (core e.after)))
          (run-Ran (rest (ok v)) s' (with_edge k f) fs (safe.1 v in_world) (ranked.1 (ok v))
            (stack-record_dependency k e.after f fs (e.stack ∙ st)) e.inv above
            (λ h. req (sym e.later.request ∙ h))
            (All-add (Settled (core e.after)) k f.dependencies e.settled (
              All-map (Settled (core s)) (Settled (core e.after)) f.dependencies e.later.settled
                settled))
            (All-add (λ j. j.kind ≡ Kind.query → rank_of rank j < m) k f.dependencies
              (λ q. ranked.0) lower)))
  run-Ran (report_untracked_read why rest) s f fs safe ranked st inv above req settled lower =
      let f' : ExecutionFrame = record f { untracked_reasons = f.untracked_reasons ++ why ∷ [] } in
      let r =
        run-Ran rest (mark_frame_untracked why s) f' fs safe ranked
          (ap (change_frame (λ x. record x { untracked_reasons = x.untracked_reasons ++ why ∷ [] }))
            st)
          inv above req settled lower in
      record {
        after = r.after;
        frame = r.frame;
        snapshot = r.snapshot;
        returns = r.returns;
        stack = r.stack;
        correct = r.correct;
        inv = r.inv;
        later = r.later;
        settled = r.settled;
        lower = r.lower;
        covers = r.covers;
        grows = r.grows;
      }
