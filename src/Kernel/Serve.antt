-- ===== src/Kernel/Serve.antt =====
-- runtime.py, a top-level `get`: the invariant from the start of its request to the end.
use pyinc.Prelude.{ℕ, zero, suc, ◌<◌, ◌≡◌, sym, ◌∙◌, ap, none, [], String, arith}
use native.Mathlib.Nat.{le_trans}
use mathlib.Core.Path.{subst}
use pyinc.Kernel.Node.{Kind, NodeKey, add}
use pyinc.Kernel.Program.{Outcome, ok, Program}
use pyinc.Kernel.State.{Database, record_dependency, change_frame}
use pyinc.Kernel.Execute.{ensure_query}
use pyinc.Kernel.Requests.{get, open_request, close_request}
use pyinc.Kernel.Fresh.{World, Rank, rank_of, value, node_value-query, IsRanked}
use pyinc.Kernel.Settled.{Above}
use pyinc.Kernel.Invariant.{core}
use pyinc.Kernel.Run.{Safe, IsInv, Ensures, Settled-value, get_within-ok}
use pyinc.Kernel.Commit.{IsExact}
use pyinc.Kernel.Ensure.{ensure_step-Ensured}
use pyinc.Kernel.Evict.{IsIdle, close_request-IsIdle, open_request-Inv, close_request-Inv}

module _ {S : Type 0} (p : Program S) (rank : Rank) (digests : String → String) (W : ℕ → World S)
    (base : ℕ) (exact : IsExact p) (ranked : IsRanked rank p)
    (safe : (identity args : String) → Safe p rank digests (W base) (p.body identity args)) where
  pub ensure_query-Ensures :
      (depth : ℕ) → Ensures p rank digests W base depth (ensure_query p depth)
  unfolding ensure_query
  ensure_query-Ensures zero k s is_query lt inv above requested = absurd (omega arith)
  ensure_query-Ensures (suc depth) k s is_query lt inv above requested =
      ensure_step-Ensured p rank digests W base exact ranked safe k is_query (ensure_query p depth)
        (λ j t e lower. ensure_query-Ensures depth j t e (le_trans lower (omega arith))) s
        (record { inv = inv; above = above; requested = requested })

  -- The state after a `get` that returned `v`.
  pub record Served (k : NodeKey) (result : Outcome S × Database S) : Type 0 where
    pub after : Database S
    pub snapshot : S
    pub returns : result ≡ (ok snapshot, after)
    pub correct : value rank p (W base) k ≡ ok snapshot
    pub inv : IsInv p rank digests W base after
    pub idle : IsIdle after

  pub get-Served :
      (depth : ℕ) (k : NodeKey) (s : Database S)
      → k.kind ≡ Kind.query
      → rank_of rank k < depth
      → IsInv p rank digests W base s
      → IsIdle s
      → Served k (get p depth k s)
  unfolding get open_request record_dependency
  get-Served depth k s is_query lt inv idle =
      let s₀ = open_request s in
      let e =
        ensure_query-Ensures depth k s₀ is_query lt (open_request-Inv p rank digests W base s inv)
          (subst (Above rank (suc (rank_of rank k))) (sym idle.1) tt)
          (λ (h : s₀.request ≡ none). cc) in
      let s₁ = record_dependency k e.after in
      let stack : s₁.execution_stack ≡ [] =
        ap (change_frame (λ f. record f { dependencies = add k f.dependencies }))
          (e.stack ∙ idle.1) in
      rw idle.0 (record {
        after = close_request s₁;
        snapshot = e.settled.found.snapshot;
        returns =
            ap (λ x. (x.0, close_request x.1))
              (get_within-ok p rank digests W base (ensure_query p depth) k s₀ e);
        correct =
            sym (node_value-query rank p (W base) k is_query)
            ∙ Settled-value p rank digests W base (core e.after) k e.inv e.settled;
        inv = close_request-Inv p rank digests W base s₁ e.inv;
        idle = close_request-IsIdle s₁ stack;
      })
