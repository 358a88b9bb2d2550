-- ===== src/Kernel/Answers.antt =====
-- runtime.py, `get` and `set`: what the invariant says of single calls, and of two databases.
use pyinc.Prelude.{All, Option-cases, inl, inr, [], ℕ, ◌<◌, true, ◌≡◌, sym, ◌∙◌, ap, List, String}
use mathlib.Core.Path.{subst}
use pyinc.Kernel.Node.{Kind, NodeKey}
use pyinc.Kernel.Program.{ok, Input, compare_values, Program}
use pyinc.Kernel.State.{Database}
use pyinc.Kernel.Inputs.{set}
use pyinc.Kernel.Requests.{get}
use pyinc.Kernel.Fresh.{World, Rank, rank_of, value, IsRanked}
use pyinc.Kernel.Run.{Safe}
use pyinc.Kernel.Commit.{IsExact}
use pyinc.Kernel.Serve.{get-Served}
use pyinc.Kernel.SetInput.{update}
use pyinc.Kernel.Batch.{set_many}
use pyinc.Kernel.Serving.{IsServing, update_all}
use pyinc.Kernel.BatchWorld.{repeated}
use pyinc.Kernel.BatchServed.{IsHandled, set_many-refused, set_many-Written, set-Written}
use pyinc.Kernel.History.{batch_outcome, batch_world}

module _ {S : Type 0} (p : Program S) (rank : Rank) (digests : String → String) where
  module _ (exact : IsExact p) (ranked : IsRanked rank p) where
    -- A top-level `get` returns, and its value is the value from scratch. Conditions: snapshots,
    -- fingerprints and the policies of queries tell different values apart; functions call queries
    -- of lower rank, and the rank of `k`, a query, is below the depth of nested calls; no
    -- function of the program, evaluated from scratch in the world, raises, reads an input that is
    -- not set or reads one with another policy than its own; the database is between requests with
    -- the invariant of its records.
    pub get-value :
        (depth : ℕ) (k : NodeKey) (w : World S) (s : Database S)
        → IsServing p rank digests w s
        → ((identity args : String) → Safe p rank digests w (p.body identity args))
        → k.kind ≡ Kind.query
        → rank_of rank k < depth
        → ((v : S) × ((get p depth k s).0 ≡ ok v)) × ((get p depth k s).0 ≡ value rank p w k)
    get-value depth k w s (W, base, e, inv, idle) safe is_query lt =
        let r =
          get-Served p rank digests W base exact ranked
            (λ i a. subst (λ x. Safe p rank digests x (p.body i a)) (sym e) (safe i a)) depth k s
            is_query lt inv idle in
        let returned = ap (λ x. x.0) r.returns in
        ((r.snapshot, returned), returned ∙ sym r.correct ∙ ap (λ x. value rank p x k) e)

    -- A top-level `get` leaves the database between requests, in the same world, with the
    -- invariant of its records. Conditions: snapshots, fingerprints and the policies of queries
    -- tell different values apart; functions call queries of lower rank, and the rank of `k`, a
    -- query, is below the depth of nested calls; no function of the program, evaluated from
    -- scratch in the world, raises, reads an input that is not set or reads one with another policy
    -- than its own; the database is between requests with the invariant of its records.
    pub get-IsServing :
        (depth : ℕ) (k : NodeKey) (w : World S) (s : Database S)
        → IsServing p rank digests w s
        → ((identity args : String) → Safe p rank digests w (p.body identity args))
        → k.kind ≡ Kind.query
        → rank_of rank k < depth
        → IsServing p rank digests w (get p depth k s).1
    get-IsServing depth k w s (W, base, e, inv, idle) safe is_query lt =
        let r =
          get-Served p rank digests W base exact ranked
            (λ i a. subst (λ x. Safe p rank digests x (p.body i a)) (sym e) (safe i a)) depth k s
            is_query lt inv idle in
        subst (IsServing p rank digests w) (sym (ap (λ x. x.1) r.returns))
          (W, base, e, r.inv, r.idle)

  -- A `set` on a database between requests, with the invariant of its records, succeeds, if the
  -- handle has the policy of its key and that policy tells different values apart. It moves the
  -- world by the one value, and the invariant holds in that world.
  pub set-IsServing :
      (i : Input S) (a : S) (w : World S) (s : Database S)
      → IsServing p rank digests w s
      → i.policy_digest ≡ digests i.key
      → ((x y : S) → compare_values p.values i.policy x y ≡ true → x ≡ y)
      → ((set p.values i a s).0 ≡ ok tt)
        × IsServing p rank digests (update w i.key a) (set p.values i a s).1
  set-IsServing i a w s (W, base, e, inv, idle) digest policy =
      let r = set-Written p rank digests W base s inv idle i a (digest, policy) in
      (
        ap (λ x. x.0) r.returns,
        subst (IsServing p rank digests (update w i.key a)) (sym (ap (λ x. x.1) r.returns))
            (subst (λ x. IsServing p rank digests (update x i.key a) r.after) e r.serving),
      )

  -- A `set_many` on a database between requests, with the invariant of its records, in which every
  -- handle has the policy of its key and that policy tells different values apart: a batch in which
  -- a key is repeated is refused, with the error of the first repeated key, and the world stays; any
  -- other batch succeeds, and moves the world by all of its values. The invariant holds in the
  -- world that results.
  pub set_many-IsServing :
      (updates : List (Input S × S)) (w : World S) (s : Database S)
      → IsServing p rank digests w s
      → All (λ u. IsHandled p rank digests u.0) updates
      → ((set_many p.values updates s).0 ≡ batch_outcome (repeated updates []))
        × IsServing p rank digests
            (batch_world (repeated updates []) updates w)
            (set_many p.values updates s).1
  set_many-IsServing updates w s (W, base, e, inv, idle) handled =
      elim (Option-cases (repeated updates [])) [
        | inl distinct ↦
            let r = set_many-Written p rank digests W base s inv idle updates handled distinct in
            (
              ap (λ x. x.0) r.returns ∙ ap batch_outcome (sym distinct),
              subst
                  (λ o.
                    IsServing p rank digests (batch_world o updates w)
                      (set_many p.values updates s).1)
                  (sym distinct)
                  (subst (IsServing p rank digests (update_all updates w))
                    (sym (ap (λ x. x.1) r.returns))
                    (subst (λ x. IsServing p rank digests (update_all updates x) r.after) e
                      r.serving)),
            )
        | inr (key, again) ↦
            let r = set_many-refused p rank digests W base s inv idle updates key handled again in
            (
              ap (λ x. x.0) r ∙ ap batch_outcome (sym again),
              subst
                  (λ o.
                    IsServing p rank digests (batch_world o updates w)
                      (set_many p.values updates s).1)
                  (sym again)
                  (subst (IsServing p rank digests w) (sym (ap (λ x. x.1) r))
                    (W, base, e, inv, idle)),
            )
      ]
