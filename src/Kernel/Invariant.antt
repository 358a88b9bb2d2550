-- ===== src/Kernel/Invariant.antt =====
-- The invariant of the graph of records: what makes it safe to keep a stored value. It speaks of the
-- worlds in which past revisions were, `W`, none of which the kernel stores.
use pyinc.Prelude.{
  ℕ, ◌≤◌, ◌<◌, ◌≡◌, refl, sym, ◌∙◌, ap, true, Option, none, some, List, String, arith, All, All-map,
  All-both, Bool-cases, inl, inr, ◌≢◌,
}
use mathlib.Core.Path.{subst}
use pyinc.Assoc.{find, put, find-cong, find-put_cases, find-put_other, string_keys}
use pyinc.Kernel.Node.{Kind, NodeKey, same_key, same_key_iff, node_keys, prospective_input_key}
use pyinc.Kernel.Program.{ok, Input, Program}
use pyinc.Kernel.State.{NodeRecord, Database}
use pyinc.Kernel.Fresh.{World, Rank, rank_of, value, node_value, node_value-same, value-same}

abbrev pub Records : Type 0 → Type 0
Records S = List (NodeKey × NodeRecord S)

-- The part of the state that the invariant is about.
pub record Core (S : Type 0) : Type 0 where
  pub revision : ℕ
  pub records : Records S
  pub input_records : List (String × NodeKey)
  pub inputs_by_key : List (String × Input S)
  pub request : Option ℕ
  pub request_counter : ℕ
  pub query_records : List NodeKey

abbrev pub core : {S : Type 0} → Database S → Core S
core s = record {
  revision = s.revision;
  records = s.records;
  input_records = s.input_records;
  inputs_by_key = s.inputs_by_key;
  request = s.request;
  request_counter = s.request_counter;
  query_records = s.query_records;
}

module _ {S : Type 0} (p : Program S) (rank : Rank) (digests : String → String)
    (W : ℕ → World S) where
  -- An edge to `d` of a record verified at `v`: if the value at `d` is not newer, it is the value
  -- that `d` had then.
  abbrev pub EdgeOk : Records S → ℕ → NodeKey → Type 0
  EdgeOk records v d =
      (r : NodeRecord S)
      → find node_keys d records ≡ some r
      → r.changed_at ≤ v
      → node_value rank p (W v) d ≡ ok r.snapshot

  -- `d` has in the world `w` the value that it had at revision `v`.
  abbrev pub Agrees : World S → ℕ → NodeKey → Type 0
  Agrees w v d = node_value rank p w d ≡ node_value rank p (W v) d

  abbrev pub IsLower : NodeKey → NodeKey → Type 0
  IsLower k d = d.kind ≡ Kind.query → rank_of rank d < rank_of rank k

  pub record QueryOk (base revision counter : ℕ) (request : Option ℕ) (k : NodeKey)
      (r : NodeRecord S) : Type 0 where
    pub verified : r.verified_at ≤ revision
    -- what was checked in the open request was checked after its start
    pub current : r.checked_in_request ≡ request → base ≤ r.verified_at
    pub asked : (n : ℕ) → r.checked_in_request ≡ some n → n ≤ counter
    pub was_asked : r.checked_in_request ≢ none
    pub digested : r.digest ≡ p.values.fingerprint_snapshot r.snapshot
    pub lower : All (IsLower k) r.dependencies
    -- the value follows from those of the dependencies
    pub covers :
        (w : World S)
        → All (Agrees w r.verified_at) r.dependencies
        → value rank p w k ≡ ok r.snapshot

  pub record Inv (base : ℕ) (s : Core S) : Type 0 where
    pub started : base ≤ s.revision
    pub still : (v : ℕ) → base ≤ v → W v ≡ W base
    pub queries :
        (k : NodeKey) (r : NodeRecord S)
        → k.kind ≡ Kind.query
        → find node_keys k s.records ≡ some r
        → QueryOk base s.revision s.request_counter s.request k r
          × All (EdgeOk s.records r.verified_at) r.dependencies
    pub inputs :
        (k : NodeKey) (r : NodeRecord S)
        → k.kind ≡ Kind.input
        → find node_keys k s.records ≡ some r
        → W base k.identity ≡ some r.snapshot
    pub plain :
        (k : NodeKey) (r : NodeRecord S)
        → k.kind ≡ Kind.input
        → find node_keys k s.records ≡ some r
        → k.args_digest ≡ ""
    pub registered :
        (key : String) (v : S)
        → W base key ≡ some v
        → (find string_keys key s.input_records ≡ some (prospective_input_key key))
          × (r : NodeRecord S) × (find node_keys (prospective_input_key key) s.records ≡ some r)
    pub names :
        (key : String) (k : NodeKey)
        → find string_keys key s.input_records ≡ some k
        → k ≡ prospective_input_key key
    -- only queries are evicted
    pub evictable : All (λ k. k.kind ≡ Kind.query) s.query_records
    pub open_request : (n : ℕ) → s.request ≡ some n → n ≤ s.request_counter
    pub policies :
        (key : String) (i : Input S)
        → find string_keys key s.inputs_by_key ≡ some i
        → i.policy_digest ≡ digests key

  -- A new record for the query `k`, at a revision that may have moved.
  module _ (base : ℕ) (s : Core S) (inv : Inv base s) (k : NodeKey) (r : NodeRecord S) (now : ℕ)
      (qs : List NodeKey) (is_query : k.kind ≡ Kind.query) (later : s.revision ≤ now) where
    abbrev pub with_record : Core S
    with_record = record s {
      revision = now;
      records = put node_keys k r s.records;
      query_records = qs;
    }

    -- what the edges of other records ask of the new one
    abbrev pub Steps : Type 0
    Steps =
        (v : ℕ)
        → v ≤ s.revision
        → EdgeOk s.records v k
        → r.changed_at ≤ v
        → node_value rank p (W v) k ≡ ok r.snapshot

    edge :
        (v : ℕ) (d : NodeKey)
        → Steps
        → v ≤ s.revision
        → EdgeOk s.records v d
        → EdgeOk with_record.records v d
    edge v d steps le h r' found at = elim (find-put_cases node_keys k d r r' s.records found) [
      | inl (same, e) ↦
          sym (node_value-same rank p (W v) k d same)
          ∙ steps v le
              (λ r₀ f₀ c₀.
                node_value-same rank p (W v) k d same
                ∙ h r₀ (sym (find-cong node_keys k d s.records same) ∙ f₀) c₀)
              (omega (arith, ap (λ (x : NodeRecord S). x.changed_at) e))
          ∙ ap (λ (x : NodeRecord S). ok x.snapshot) e
      | inr (other, e) ↦ h r' e at
    ]

    -- a dependency of `k` itself is another node
    lower-edge :
        (v : ℕ) (d : NodeKey) → IsLower k d → EdgeOk s.records v d → EdgeOk with_record.records v d
    lower-edge v d low h r' found at = elim (find-put_cases node_keys k d r r' s.records found) [
      | inl (same, e) ↦
          let (ek, ei, ea) = (same_key_iff k d).0 same in
          let eq : rank_of rank k ≡ rank_of rank d = λ i. rank (ei i) (ea i) in
          absurd (omega (arith, low (sym ek ∙ is_query)))
      | inr (other, e) ↦ h r' e at
    ]

    QueryOk-same :
        (j : NodeKey)
        → same_key k j ≡ true
        → QueryOk base now s.request_counter s.request k r
        → QueryOk base now s.request_counter s.request j r
    QueryOk-same j same q =
        let (ek, ei, ea) = (same_key_iff k j).0 same in
        let eq : rank_of rank k ≡ rank_of rank j = λ i. rank (ei i) (ea i) in
        record {
          verified = q.verified;
          current = q.current;
          asked = q.asked;
          was_asked = q.was_asked;
          digested = q.digested;
          lower =
              All-map (IsLower k) (IsLower j) r.dependencies (λ d h e. omega (arith, eq, h e))
                q.lower;
          covers = λ w h. sym (value-same rank p w k j same) ∙ q.covers w h;
        }

    old-QueryOk :
        (j : NodeKey) (r' : NodeRecord S)
        → QueryOk base s.revision s.request_counter s.request j r'
        → QueryOk base now s.request_counter s.request j r'
    old-QueryOk j r' q = record {
      verified = omega (arith, q.verified);
      current = q.current;
      asked = q.asked;
      was_asked = q.was_asked;
      digested = q.digested;
      lower = q.lower;
      covers = q.covers;
    }

    put-queries :
        QueryOk base now s.request_counter s.request k r
        → All (EdgeOk s.records r.verified_at) r.dependencies
        → Steps
        → (j : NodeKey) (r' : NodeRecord S) → j.kind ≡ Kind.query
        → find node_keys j with_record.records ≡ some r'
        → QueryOk base now s.request_counter s.request j r'
          × All (EdgeOk with_record.records r'.verified_at) r'.dependencies
    put-queries q edges steps j r' jq found =
        elim (find-put_cases node_keys k j r r' s.records found) [
          | inl (same, e) ↦
              subst
                (λ x.
                  QueryOk base now s.request_counter s.request j x
                  × All (EdgeOk with_record.records x.verified_at) x.dependencies)
                e
                (
                  QueryOk-same j same q,
                  All-both (IsLower k) (EdgeOk s.records r.verified_at)
                      (EdgeOk with_record.records r.verified_at) r.dependencies
                      (lower-edge r.verified_at) q.lower edges,
                )
          | inr (other, e) ↦
              let (q', edges') = inv.queries j r' jq e in
              (
                old-QueryOk j r' q',
                All-map (EdgeOk s.records r'.verified_at)
                    (EdgeOk with_record.records r'.verified_at) r'.dependencies
                    (λ d h. edge r'.verified_at d steps q'.verified h) edges',
              )
        ]

    -- The inputs are where they were.
    put-input :
        (j : NodeKey)
        → j.kind ≡ Kind.input
        → find node_keys j with_record.records ≡ find node_keys j s.records
    put-input j ji = elim (Bool-cases (same_key k j)) [
      | inl same ↦ absurd (ground (arith, (same_key_iff k j).0 same))
      | inr other ↦ find-put_other node_keys k j r s.records other
    ]

    pub put-Inv :
        QueryOk base now s.request_counter s.request k r
        → All (EdgeOk s.records r.verified_at) r.dependencies
        → Steps
        → All (λ j. j.kind ≡ Kind.query) qs
        → Inv base with_record
    unfolding prospective_input_key
    put-Inv q edges steps evictable = record {
      started = omega (arith, inv.started);
      still = inv.still;
      queries = put-queries q edges steps;
      inputs = λ j r' ji found. inv.inputs j r' ji (sym (put-input j ji) ∙ found);
      plain = λ j r' ji found. inv.plain j r' ji (sym (put-input j ji) ∙ found);
      registered = λ key v h.
          let (reg, r', found) = inv.registered key v h in
          (reg, r', put-input (prospective_input_key key) refl ∙ found);
      names = inv.names;
      evictable = evictable;
      open_request = inv.open_request;
      policies = inv.policies;
    }
