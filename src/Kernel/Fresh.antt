-- ===== src/Kernel/Fresh.antt =====
-- The specification: the value of a query computed from scratch, over the values of the inputs, with
-- no memory of earlier evaluations.
use pyinc.Prelude.{ℕ, zero, suc, ◌<◌, ◌≡◌, refl, ap, true, Option, none, some, String, arith}
use pyinc.Kernel.Node.{Kind, NodeKey, same_key, same_key_iff}
use pyinc.Kernel.Program.{
  key_error, recursion_error, Outcome, ok, raise, Body, ret, throw, read, call,
  report_untracked_read, Program,
}

-- The values of the inputs, by key.
abbrev pub World : Type 0 → Type 0
World S = String → Option S

module _ {S : Type 0} where
  abbrev pub input_value : World S → String → Outcome S
  input_value w key = elim (w key) [ none ↦ raise (key_error key) | some v ↦ ok v ]

  -- A run of a function, with the values of the queries that it calls given.
  unfoldable pub run_fresh : (NodeKey → Outcome S) → World S → Body S → Outcome S
  run_fresh value w (ret v) = ok v
  run_fresh value w (throw e) = raise e
  run_fresh value w (read i rest) = run_fresh value w (rest (input_value w i.key))
  run_fresh value w (call k rest) = run_fresh value w (rest (value k))
  run_fresh value w (report_untracked_read why rest) = run_fresh value w rest

  unfoldable pub fresh : Program S → ℕ → World S → NodeKey → Outcome S
  unfolding run_fresh
  fresh p zero w k = raise recursion_error
  fresh p (suc depth) w k = run_fresh (fresh p depth w) w (p.body k.identity k.args_digest)

-- What is asked of a program: a rank for every query, such that a function calls queries of lower
-- rank only, whatever the calls before returned. So there are no cycles.
abbrev pub Rank : Type 0
Rank = String → String → ℕ

abbrev pub rank_of : Rank → NodeKey → ℕ
rank_of rank k = rank k.identity k.args_digest

module _ {S : Type 0} (rank : Rank) where
  abbrev pub Ranked : ℕ → Body S → Type 0
  Ranked n (ret v) = Unit
  Ranked n (throw e) = Unit
  Ranked n (read i rest) = (o : Outcome S) → Ranked n (rest o)
  Ranked n (call k rest) = (rank_of rank k < n) × ((o : Outcome S) → Ranked n (rest o))
  Ranked n (report_untracked_read why rest) = Ranked n rest

  abbrev pub IsRanked : Program S → Type 0
  IsRanked p = (i a : String) → Ranked (rank i a) (p.body i a)

  run_fresh-cong :
      (n : ℕ) (b : Body S) (w : World S) (f g : NodeKey → Outcome S)
      → Ranked n b
      → ((k : NodeKey) → rank_of rank k < n → f k ≡ g k)
      → run_fresh f w b ≡ run_fresh g w b
  unfolding run_fresh
  run_fresh-cong n (ret v) w f g r h = refl
  run_fresh-cong n (throw e) w f g r h = refl
  run_fresh-cong n (read i rest) w f g r h =
      run_fresh-cong n (rest (input_value w i.key)) w f g (r (input_value w i.key)) h
  run_fresh-cong n (call k rest) w f g r h =
      rw (h k r.0) (run_fresh-cong n (rest (g k)) w f g (r.1 (g k)) h)
  run_fresh-cong n (report_untracked_read why rest) w f g r h = run_fresh-cong n rest w f g r h

  -- Any depth above the rank gives the same value.
  pub fresh_deep :
      (p : Program S) (n m : ℕ) (w : World S) (k : NodeKey)
      → IsRanked p
      → rank_of rank k < n
      → rank_of rank k < m
      → fresh p n w k ≡ fresh p m w k
  unfolding fresh
  fresh_deep p zero m w k r hn hm = absurd (omega arith)
  fresh_deep p (suc n) zero w k r hn hm = absurd (omega arith)
  fresh_deep p (suc n) (suc m) w k r hn hm =
      run_fresh-cong (rank_of rank k) (p.body k.identity k.args_digest) w (fresh p n w)
        (fresh p m w) (r k.identity k.args_digest)
        (λ j lt. fresh_deep p n m w j r (omega arith) (omega arith))

  -- The value of a query from scratch, at a depth that is enough.
  unfoldable pub value : Program S → World S → NodeKey → Outcome S
  value p w k = fresh p (suc (rank_of rank k)) w k

  -- It solves the equation that defines the query by its function.
  pub value-run :
      (p : Program S) (w : World S) (k : NodeKey)
      → IsRanked p
      → value p w k ≡ run_fresh (value p w) w (p.body k.identity k.args_digest)
  unfolding value fresh
  value-run p w k r =
      run_fresh-cong (rank_of rank k) (p.body k.identity k.args_digest) w
        (fresh p (rank_of rank k) w) (value p w) (r k.identity k.args_digest)
        (λ j lt. fresh_deep p (rank_of rank k) (suc (rank_of rank j)) w j r lt (omega arith))

  pub value-same :
      (p : Program S) (w : World S) (a b : NodeKey)
      → same_key a b ≡ true
      → value p w a ≡ value p w b
  unfolding value fresh
  value-same p w a b h =
      let (ek, ei, ea) = (same_key_iff a b).0 h in
      λ i. value p w (record a { kind = ek i; identity = ei i; args_digest = ea i })

  -- The value of a node, input or query.
  abbrev pub node_value : Program S → World S → NodeKey → Outcome S
  node_value p w k = elim k.kind [
    | Kind.input ↦ input_value w k.identity
    | Kind.query ↦ value p w k
  ]

  pub node_value-query :
      (p : Program S) (w : World S) (k : NodeKey)
      → k.kind ≡ Kind.query
      → node_value p w k ≡ value p w k
  node_value-query p w k e =
      ap (λ κ. elim κ [ Kind.input ↦ input_value w k.identity | Kind.query ↦ value p w k ]) e

  -- The label has no part in it.
  pub node_value-same :
      (p : Program S) (w : World S) (a b : NodeKey)
      → same_key a b ≡ true
      → node_value p w a ≡ node_value p w b
  unfolding value fresh
  node_value-same p w a b h =
      let (ek, ei, ea) = (same_key_iff a b).0 h in
      λ i. node_value p w (record a { kind = ek i; identity = ei i; args_digest = ea i })
