-- ===== src/Kernel/Run.antt =====
-- runtime.py, the calls that a query's function makes: the invariant, and what its frame records.
use pyinc.Prelude.{
  ℕ, suc, ◌<◌, ◌≡◌, ◌≢◌, refl, sym, ◌∙◌, ap, false, none, some, List, ◌∷◌, String, arith, some_eq,
  Option-cases, All, All-every, inl, inr,
}
use native.Mathlib.Nat.{le_refl}
use text.Mathlib.TextEquality.{eq_iff}
use pyinc.Assoc.{find, string_keys}
use pyinc.Kernel.Node.{Kind, kind_cases, NodeKey, node_keys, prospective_input_key, add}
use pyinc.Kernel.Program.{
  Outcome, ok, raise, key_error, Program, Input, Body, ret, throw, read, call,
  report_untracked_read,
}
use pyinc.Kernel.State.{NodeRecord, Database, M, ExecutionFrame, record_dependency}
use pyinc.Kernel.Verify.{policy_conflict, read_input, get_within}
use pyinc.Kernel.Fresh.{
  World, Rank, rank_of, value, node_value, node_value-same, input_value, fresh, run_fresh,
}
use pyinc.Kernel.Invariant.{Core, core, Inv, Agrees}
use pyinc.Kernel.Settled.{Settled, Later, Later-trans, Above, All-of_add}

module _ {S : Type 0} (p : Program S) (rank : Rank) (digests : String → String) where
  -- Evaluated from scratch in the world `w`, the function reads inputs that are set, and raises
  -- nothing of its own: of the values that a read or a call could have, only that in `w` matters.
  abbrev pub Safe : World S → Body S → Type 0
  Safe w (ret v) = Unit
  Safe w (throw e) = ⊥
  Safe w (read i rest) =
      ((v : S) × (w i.key ≡ some v))
      × (i.policy_digest ≡ digests i.key)
      × ((v : S) → w i.key ≡ some v → Safe w (rest (ok v)))
  Safe w (call k rest) =
      (k.kind ≡ Kind.query) × ((v : S) → value rank p w k ≡ ok v → Safe w (rest (ok v)))
  Safe w (report_untracked_read why rest) = Safe w rest

module _ {S : Type 0} (p : Program S) (rank : Rank) (digests : String → String) (W : ℕ → World S)
    (base : ℕ) where
  abbrev pub IsInv : Database S → Type 0
  IsInv s = Inv p rank digests W base (core s)

  -- A node that is settled has the value from scratch.
  pub Settled-value :
      (s : Core S) (d : NodeKey)
      → Inv p rank digests W base s
      → (h : Settled s d) → node_value rank p (W base) d ≡ ok h.found.snapshot
  Settled-value s d inv h = elim (kind_cases d.kind) [
    | inl e ↦
        ap
          (λ k. elim k [
            | Kind.input ↦ input_value (W base) d.identity
            | Kind.query ↦ value rank p (W base) d
          ])
          e
        ∙ ap (λ o. elim o [ none ↦ raise (key_error d.identity) | some v ↦ ok v ])
            (inv.inputs d h.found e h.at)
    | inr e ↦
        let q = (inv.queries d h.found e h.at).0 in
        ap
          (λ k. elim k [
            | Kind.input ↦ input_value (W base) d.identity
            | Kind.query ↦ value rank p (W base) d
          ])
          e
        ∙ q.covers (W base) (
            All-every (Agrees p rank digests W (W base) h.found.verified_at)
              (λ j.
                ap (λ w. node_value rank p w j)
                  (sym (inv.still h.found.verified_at (q.current (h.checked e)))))
              h.found.dependencies)
  ]

  -- What `ensure` leaves after the evaluation of `k`.
  pub record Ensured (k : NodeKey) (s : Database S) (result : Outcome (Unit {0}) × Database S)
      : Type 0 where
    pub after : Database S
    pub returns : result ≡ (ok tt, after)
    pub inv : IsInv after
    pub later : Later rank (suc (rank_of rank k)) (core s) (core after)
    pub stack : after.execution_stack ≡ s.execution_stack
    pub settled : Settled (core after) k

  -- `ensure` serves the queries of a rank below `n`.
  abbrev pub Ensures : ℕ → (NodeKey → M S (Unit {0})) → Type 0
  Ensures n ensure =
      (k : NodeKey) (s : Database S)
      → k.kind ≡ Kind.query
      → rank_of rank k < n
      → IsInv s
      → Above rank (suc (rank_of rank k)) s.execution_stack
      → s.request ≢ none
      → Ensured k s (ensure k s)

  -- What a run leaves in the frame `f`, on the stack `fs`.
  pub record Ran (m : ℕ) (b : Body S) (s : Database S) (f : ExecutionFrame)
      (fs : List ExecutionFrame) (result : Outcome S × Database S) : Type 0 where
    pub after : Database S
    pub frame : ExecutionFrame
    pub snapshot : S
    pub returns : result ≡ (ok snapshot, after)
    pub stack : after.execution_stack ≡ frame ∷ fs
    pub correct : run_fresh (value rank p (W base)) (W base) b ≡ ok snapshot
    pub inv : IsInv after
    pub later : Later rank m (core s) (core after)
    pub settled : All (Settled (core after)) frame.dependencies
    pub lower : All (λ d. d.kind ≡ Kind.query → rank_of rank d < m) frame.dependencies
    pub covers :
        (w : World S)
        → All (λ d. node_value rank p w d ≡ node_value rank p (W base) d) frame.dependencies
        → run_fresh (value rank p w) w b ≡ ok snapshot
    pub grows :
        (w : World S)
        → All (λ d. node_value rank p w d ≡ node_value rank p (W base) d) frame.dependencies
        → All (λ d. node_value rank p w d ≡ node_value rank p (W base) d) f.dependencies

  -- One read or call, with the rest of the function.
  pub extend :
      (m : ℕ) (b b' : Body S) (s s' : Database S) (f : ExecutionFrame) (fs : List ExecutionFrame)
      (d : NodeKey) (v : S) (result : Outcome S × Database S)
      → ((w : World S)
          → node_value rank p w d ≡ ok v
          → run_fresh (value rank p w) w b ≡ run_fresh (value rank p w) w b')
      → node_value rank p (W base) d ≡ ok v
      → Later rank m (core s) (core s')
      → Ran m b' s' (record f { dependencies = add d f.dependencies }) fs result
      → Ran m b s f fs result
  extend m b b' s s' f fs d v result step known later r = record {
    after = r.after;
    frame = r.frame;
    snapshot = r.snapshot;
    returns = r.returns;
    stack = r.stack;
    correct = step (W base) known ∙ r.correct;
    inv = r.inv;
    later = Later-trans rank (le_refl m) later r.later;
    settled = r.settled;
    lower = r.lower;
    covers = λ w h. step w ((agreed w h).0 ∙ known) ∙ r.covers w h;
    grows = λ w h. (agreed w h).1;
  }
    where
      agreed :
          (w : World S)
          → All (λ d. node_value rank p w d ≡ node_value rank p (W base) d) r.frame.dependencies
          → (node_value rank p w d ≡ node_value rank p (W base) d)
            × All (λ d. node_value rank p w d ≡ node_value rank p (W base) d) f.dependencies
      agreed w h =
          All-of_add (λ j. node_value rank p w j ≡ node_value rank p (W base) j) d f.dependencies
            (λ j same e.
              sym (node_value-same rank p w j d same)
              ∙ e
              ∙ node_value-same rank p (W base) j d same)
            (r.grows w h)

  pub no_conflict :
      (i : Input S) (s : Database S)
      → IsInv s
      → i.policy_digest ≡ digests i.key
      → policy_conflict i s ≡ false
  unfolding policy_conflict
  no_conflict i s inv digest = elim (Option-cases (find string_keys i.key s.inputs_by_key)) [
    | inl new ↦ rw (new, policy_conflict)
    | inr (j, known) ↦
        rw (known, policy_conflict)
          (ground (
            arith,
            (eq_iff j.policy_digest i.policy_digest).1 (inv.policies i.key j known ∙ sym digest),
          ))
  ]

  input-snapshot :
      (key : String) (s : Database S) (v : S) (r : NodeRecord S)
      → IsInv s
      → W base key ≡ some v
      → find node_keys (prospective_input_key key) s.records ≡ some r
      → r.snapshot ≡ v
  unfolding prospective_input_key
  input-snapshot key s v r inv set found =
      some_eq (sym (inv.inputs (prospective_input_key key) r refl found) ∙ set)

  -- An input that is set is read, and the edge to it recorded.
  pub read_input-ok :
      (i : Input S) (s : Database S) (v : S)
      → IsInv s
      → W base i.key ≡ some v
      → i.policy_digest ≡ digests i.key
      → read_input i s ≡ (ok v, record_dependency (prospective_input_key i.key) s)
  unfolding read_input
  read_input-ok i s v inv set digest =
      let (reg, r, found) = inv.registered i.key v set in
      let reg' : find string_keys i.key s.input_records ≡ some (prospective_input_key i.key) =
        reg in
      let found' : find node_keys (prospective_input_key i.key) s.records ≡ some r = found in
      ground
        (arith, no_conflict i s inv digest, reg', found', input-snapshot i.key s v r inv set found)

  pub input-Settled :
      (i : Input S) (s : Database S) (v : S)
      → IsInv s
      → W base i.key ≡ some v
      → Settled (core s) (prospective_input_key i.key)
  unfolding prospective_input_key
  input-Settled i s v inv set =
      let (reg, r, found) = inv.registered i.key v set in
      record { found = r; at = found; checked = λ e. cc }

  -- A call of a query that `ensure` serves.
  pub get_within-ok :
      (ensure : NodeKey → M S (Unit {0})) (k : NodeKey) (s : Database S)
      → (h : Ensured k s (ensure k s))
      → get_within ensure k s ≡ (ok h.settled.found.snapshot, record_dependency k h.after)
  unfolding get_within
  get_within-ok ensure k s h =
      let found : find node_keys k h.after.records ≡ some h.settled.found = h.settled.at in
      ground (arith, h.returns, found)

  pub query-value :
      (k : NodeKey) (w : World S) (o : Outcome S)
      → k.kind ≡ Kind.query
      → node_value rank p w k ≡ o
      → value rank p w k ≡ o
  unfolding value fresh
  query-value k w o e h = rw e at h
