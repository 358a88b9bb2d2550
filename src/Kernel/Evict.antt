-- ===== src/Kernel/Evict.antt =====
-- runtime.py, `_request_scope` and eviction: the invariant at the two ends of a request.
use pyinc.Prelude.{
  ℕ, zero, suc, ◌≤◌, ◌<◌, ◌≡◌, refl, sym, ◌∙◌, ap, none, some, some_eq, List, [], ◌∷◌, String,
  arith, All, All-map, Bool-cases, Option-cases, ◌⊎◌, inl, inr, ltb, length,
}
use pyinc.Assoc.{find, remove, find-remove, string_keys}
use pyinc.Kernel.Node.{Kind, NodeKey, node_keys, same_key, same_key_iff, prospective_input_key}
use pyinc.Kernel.Program.{Program}
use pyinc.Kernel.State.{NodeRecord, Database, evict_query_record, discard}
use pyinc.Kernel.Requests.{
  last_used, least_recent, evict_one, evict_rounds, evict_query_nodes_if_needed, open_request,
  close_request,
}
use pyinc.Kernel.Fresh.{World, Rank}
use pyinc.Kernel.Invariant.{Core, core, Inv, QueryOk, EdgeOk, Records}

abbrev pub IsQueryKey : NodeKey → Type 0
IsQueryKey k = k.kind ≡ Kind.query

discard-All :
    (P : NodeKey → Type 0) (k : NodeKey) (ks : List NodeKey) → All P ks → All P (discard k ks)
unfolding discard
discard-All P k [] h = tt
discard-All P k (j ∷ ks) h = elim (Bool-cases (same_key j k)) [
  | inl e ↦ rw e (discard-All P k ks h.1)
  | inr e ↦ rw e (h.0, discard-All P k ks h.1)
]

least_recent-All :
    {S : Type 0} (P : NodeKey → Type 0) (s : Database S) (k : NodeKey) (ks : List NodeKey)
    → P k
    → All P ks
    → P (least_recent s k ks)
unfolding least_recent
least_recent-All P s k [] h hs = h
least_recent-All P s k (j ∷ ks) h hs = elim (Bool-cases (ltb (last_used s j) (last_used s k))) [
  | inl e ↦ rw e (least_recent-All P s j ks hs.0 hs.1)
  | inr e ↦ rw e (least_recent-All P s k ks h hs.1)
]

-- Between requests: no request is open, and nothing is on the stack.
abbrev pub IsIdle : {S : Type 0} → Database S → Type 0
IsIdle s = (s.request ≡ none) × (s.execution_stack ≡ [])

module _ {S : Type 0} where
  evict_one-IsIdle : (s : Database S) (ks : List NodeKey) → IsIdle s → IsIdle (evict_one s ks)
  unfolding evict_one evict_query_record
  evict_one-IsIdle s [] h = h
  evict_one-IsIdle s (k ∷ ks) h = h

  evict_rounds-IsIdle : (n limit : ℕ) (s : Database S) → IsIdle s → IsIdle (evict_rounds n limit s)
  unfolding evict_rounds
  evict_rounds-IsIdle zero limit s h = h
  evict_rounds-IsIdle (suc n) limit s h = elim (Bool-cases (ltb limit (length s.query_records))) [
    | inl over ↦ rw over (
        evict_rounds-IsIdle n limit (evict_one s s.query_records)
          (evict_one-IsIdle s s.query_records h))
    | inr within ↦ rw within h
  ]

  evict_if_needed-IsIdle : (s : Database S) → IsIdle s → IsIdle (evict_query_nodes_if_needed s)
  unfolding evict_query_nodes_if_needed
  evict_if_needed-IsIdle s h = elim (Option-cases s.max_query_nodes) [
    | inl unlimited ↦ rw (unlimited, evict_query_nodes_if_needed) h
    | inr (limit, e) ↦
        rw (e, evict_query_nodes_if_needed) (evict_rounds-IsIdle (length s.query_records) limit s h)
  ]

  pub close_request-IsIdle : (s : Database S) → s.execution_stack ≡ [] → IsIdle (close_request s)
  unfolding close_request
  close_request-IsIdle s h = evict_if_needed-IsIdle (record s { request = none }) (refl, h)

module _ {S : Type 0} (p : Program S) (rank : Rank) (digests : String → String) (W : ℕ → World S)
    (base : ℕ) where
  -- A state with fewer query records, between requests or inside one.
  module _ (s s' : Core S) (inv : Inv p rank digests W base s) where
    pub record Fewer : Type 0 where
      pub revision : s'.revision ≡ s.revision
      pub inputs : s'.input_records ≡ s.input_records
      pub handles : s'.inputs_by_key ≡ s.inputs_by_key
      pub kept :
          (j : NodeKey) (r : NodeRecord S)
          → find node_keys j s'.records ≡ some r
          → find node_keys j s.records ≡ some r
      pub same_inputs :
          (j : NodeKey)
          → j.kind ≡ Kind.input
          → find node_keys j s'.records ≡ find node_keys j s.records
      pub evictable : All IsQueryKey s'.query_records
      pub counter : s.request_counter ≤ s'.request_counter
      pub asked : (n : ℕ) → s'.request ≡ some n → n ≤ s'.request_counter
      -- no record can carry the id of a request that was opened here
      pub new_request :
          (n : ℕ) → s'.request ≡ some n → (s.request ≡ some n) ⊎ (s.request_counter < n)

    fewer-current :
        (k : NodeKey) (r : NodeRecord S)
        → Fewer
        → QueryOk p rank digests W base s.revision s.request_counter s.request k r
        → r.checked_in_request ≡ s'.request
        → base ≤ r.verified_at
    fewer-current k r f q e = elim (Option-cases r.checked_in_request) [
      | inl never ↦ absurd (q.was_asked never)
      | inr (n, at) ↦ elim (f.new_request n (sym e ∙ at)) [
        | inl old ↦ q.current (at ∙ sym old)
        | inr new ↦ absurd (omega (arith, q.asked n at))
      ]
    ]

    fewer-QueryOk :
        (k : NodeKey) (r : NodeRecord S)
        → Fewer
        → QueryOk p rank digests W base s.revision s.request_counter s.request k r
        → QueryOk p rank digests W base s'.revision s'.request_counter s'.request k r
    fewer-QueryOk k r f q = record {
      verified = omega (arith, q.verified, f.revision);
      current = fewer-current k r f q;
      asked = λ n e. omega (arith, q.asked n e, f.counter);
      was_asked = q.was_asked;
      digested = q.digested;
      lower = q.lower;
      covers = q.covers;
    }

    pub fewer-Inv : Fewer → Inv p rank digests W base s'
    unfolding prospective_input_key
    fewer-Inv f = record {
      started = omega (arith, inv.started, f.revision);
      still = inv.still;
      queries = λ k r e found.
          let (q, edges) = inv.queries k r e (f.kept k r found) in
          (
            fewer-QueryOk k r f q,
            All-map (EdgeOk p rank digests W s.records r.verified_at)
                (EdgeOk p rank digests W s'.records r.verified_at) r.dependencies
                (λ d h rd at. h rd (f.kept d rd at)) edges,
          );
      inputs = λ k r e found. inv.inputs k r e (f.kept k r found);
      plain = λ k r e found. inv.plain k r e (f.kept k r found);
      registered = λ key v set.
          let (reg, r, found) = inv.registered key v set in
          (
            ap (find string_keys key) f.inputs ∙ reg,
            r,
            f.same_inputs (prospective_input_key key) refl ∙ found,
          );
      names = λ key k e. inv.names key k (sym (ap (find string_keys key) f.inputs) ∙ e);
      evictable = f.evictable;
      open_request = f.asked;
      policies = λ key i e. inv.policies key i (sym (ap (find string_keys key) f.handles) ∙ e);
    }

  abbrev pub IsInv : Database S → Type 0
  IsInv s = Inv p rank digests W base (core s)

  pub open_request-Inv : (s : Database S) → IsInv s → IsInv (open_request s)
  unfolding open_request
  open_request-Inv s inv = fewer-Inv (core s) (core (open_request s)) inv (record {
    revision = refl;
    inputs = refl;
    handles = refl;
    kept = λ j r e. e;
    same_inputs = λ j e. refl;
    evictable = inv.evictable;
    counter = omega arith;
    asked = λ n e. omega (arith, some_eq e);
    new_request = λ n e. inr (omega (arith, some_eq e));
  })

  end_request-Inv : (s : Database S) → IsInv s → IsInv (record s { request = none })
  end_request-Inv s inv = fewer-Inv (core s) (core (record s { request = none })) inv (record {
    revision = refl;
    inputs = refl;
    handles = refl;
    kept = λ j r e. e;
    same_inputs = λ j e. refl;
    evictable = inv.evictable;
    counter = omega arith;
    asked = λ n e. cc;
    new_request = λ n e. cc;
  })

  kept-remove :
      (k j : NodeKey) (r : NodeRecord S) (records : Records S)
      → find node_keys j (remove node_keys k records) ≡ some r
      → find node_keys j records ≡ some r
  kept-remove k j r records h = ground (arith, find-remove node_keys k j records)

  same_input-remove :
      (k j : NodeKey) (records : Records S)
      → IsQueryKey k
      → j.kind ≡ Kind.input
      → find node_keys j (remove node_keys k records) ≡ find node_keys j records
  same_input-remove k j records e f = elim (Bool-cases (same_key k j)) [
    | inl same ↦ absurd (ground (arith, (same_key_iff k j).0 same))
    | inr other ↦ ground (arith, find-remove node_keys k j records)
  ]

  evict-Inv :
      (k : NodeKey) (s : Database S) → IsQueryKey k → IsInv s → IsInv (evict_query_record k s)
  unfolding evict_query_record
  evict-Inv k s e inv = fewer-Inv (core s) (core (evict_query_record k s)) inv (record {
    revision = refl;
    inputs = refl;
    handles = refl;
    kept = λ j r. kept-remove k j r s.records;
    same_inputs = λ j. same_input-remove k j s.records e;
    evictable = discard-All IsQueryKey k s.query_records inv.evictable;
    counter = omega arith;
    asked = inv.open_request;
    new_request = λ n h. inl h;
  })

  evict_one-Inv :
      (s : Database S) (ks : List NodeKey) → All IsQueryKey ks → IsInv s → IsInv (evict_one s ks)
  unfolding evict_one
  evict_one-Inv s [] h inv = inv
  evict_one-Inv s (k ∷ ks) h inv =
      evict-Inv (least_recent s k ks) s (least_recent-All IsQueryKey s k ks h.0 h.1) inv

  evict_rounds-Inv : (n limit : ℕ) (s : Database S) → IsInv s → IsInv (evict_rounds n limit s)
  unfolding evict_rounds
  evict_rounds-Inv zero limit s inv = inv
  evict_rounds-Inv (suc n) limit s inv = elim (Bool-cases (ltb limit (length s.query_records))) [
    | inl over ↦ rw over (
        evict_rounds-Inv n limit (evict_one s s.query_records)
          (evict_one-Inv s s.query_records inv.evictable inv))
    | inr within ↦ rw within inv
  ]

  evict_if_needed-Inv : (s : Database S) → IsInv s → IsInv (evict_query_nodes_if_needed s)
  unfolding evict_query_nodes_if_needed
  evict_if_needed-Inv s inv = elim (Option-cases s.max_query_nodes) [
    | inl unlimited ↦ rw (unlimited, evict_query_nodes_if_needed) inv
    | inr (limit, e) ↦
        rw (e, evict_query_nodes_if_needed) (evict_rounds-Inv (length s.query_records) limit s inv)
  ]

  pub close_request-Inv : (s : Database S) → IsInv s → IsInv (close_request s)
  unfolding close_request
  close_request-Inv s inv =
      evict_if_needed-Inv (record s { request = none }) (end_request-Inv s inv)
