-- ===== src/Kernel/SetInput.antt =====
-- runtime.py, `set`: the invariant when an input's record is stored, in the world with its value.
use text.Mathlib.Text.{◌==◌ as str_eq}
use text.Mathlib.TextEquality.{eq_iff}
use pyinc.Prelude.{
  ℕ, ◌≤◌, ◌≡◌, ◌≢◌, refl, sym, ◌∙◌, ap, true, false, none, some, some_eq, String, arith, All,
  All-map, Bool-cases, inl, inr, if◌then◌else◌,
}
use mathlib.Core.Path.{subst}
use pyinc.Assoc.{find, put, find-put_cases, find-put_self, find-put_other, find-cong, string_keys}
use pyinc.Kernel.Node.{Kind, NodeKey, node_keys, same_key, same_key_iff, prospective_input_key}
use pyinc.Kernel.Program.{ok, Input, Program}
use pyinc.Kernel.State.{NodeRecord}
use pyinc.Kernel.Fresh.{World, Rank, node_value, node_value-same}
use pyinc.Kernel.Invariant.{Core, Inv, QueryOk, Agrees, EdgeOk}

-- The world in which one input has another value.
unfoldable pub update : {S : Type 0} → World S → String → S → World S
update w key a j = if str_eq key j then some a else w j

module _ {S : Type 0} (w : World S) (key : String) (a : S) (j : String) where
  pub update_self : str_eq key j ≡ true → update w key a j ≡ some a
  unfolding update
  update_self h = rw h

  pub update_other : str_eq key j ≡ false → update w key a j ≡ w j
  unfolding update
  update_other h = rw h

module _ {S : Type 0} (p : Program S) (rank : Rank) (digests : String → String) (W W' : ℕ → World S)
    (base base' : ℕ) (s s' : Core S) (key : String) (a : S) (r : NodeRecord S) (top : ℕ)
    (inv : Inv p rank digests W base s) (idle : s.request ≡ none) where
  abbrev k : NodeKey
  k = prospective_input_key key

  -- What a step that stores `r` as the record of the input `key` has to do.
  pub record Stores : Type 0 where
    pub stored : s'.records ≡ put node_keys k r s.records
    pub requests : (s'.request ≡ s.request) × (s'.request_counter ≡ s.request_counter)
    pub query_records : s'.query_records ≡ s.query_records
    pub revisions : (s.revision ≤ s'.revision) × (base' ≤ s'.revision)
    pub value_of : r.snapshot ≡ a
    -- the worlds
    pub before : (v : ℕ) → v ≤ top → W' v ≡ W v
    pub after : (v : ℕ) → base' ≤ v → W' v ≡ update (W base) key a
    -- the records of queries are not newer than `top`
    pub settled :
        (j : NodeKey) (q : NodeRecord S)
        → j.kind ≡ Kind.query
        → find node_keys j s.records ≡ some q
        → q.verified_at ≤ top
    -- a value that is not newer than an edge is the one that the edge saw
    pub steps :
        (v : ℕ)
        → v ≤ top
        → EdgeOk p rank digests W s.records v k
        → r.changed_at ≤ v
        → node_value rank p (W v) k ≡ ok a
    -- the registries
    pub key_registered : find string_keys key s'.input_records ≡ some k
    pub others_registered :
        (j : String)
        → str_eq key j ≡ false
        → find string_keys j s'.input_records ≡ find string_keys j s.input_records
    pub handles :
        (j : String) (i : Input S)
        → find string_keys j s'.inputs_by_key ≡ some i
        → i.policy_digest ≡ digests j

  module _ (h : Stores) where
    after_base : W' base' ≡ update (W base) key a
    after_base = h.after base' (omega arith)

    edge :
        (v : ℕ) (d : NodeKey)
        → v ≤ top
        → EdgeOk p rank digests W s.records v d
        → EdgeOk p rank digests W' s'.records v d
    edge v d le old r' found at =
        ap (λ w. node_value rank p w d) (h.before v le)
        ∙ elim (find-put_cases node_keys k d r r' s.records
            (sym (ap (find node_keys d) h.stored) ∙ found)) [
              | inl (same, e) ↦
                  sym (node_value-same rank p (W v) k d same)
                  ∙ h.steps v le
                      (λ r₀ f₀ c₀.
                        node_value-same rank p (W v) k d same
                        ∙ old r₀ (sym (find-cong node_keys k d s.records same) ∙ f₀) c₀)
                      (omega (arith, ap (λ (x : NodeRecord S). x.changed_at) e))
                  ∙ ap ok (sym h.value_of)
                  ∙ ap (λ (x : NodeRecord S). ok x.snapshot) e
              | inr (other, e) ↦ old r' e at
            ]

    new-QueryOk :
        (j : NodeKey) (q : NodeRecord S)
        → q.verified_at ≤ top
        → QueryOk p rank digests W base s.revision s.request_counter s.request j q
        → QueryOk p rank digests W' base' s'.revision s'.request_counter s'.request j q
    new-QueryOk j q le old = record {
      verified = omega (arith, old.verified, h.revisions.0);
      current = λ e. absurd (old.was_asked (e ∙ h.requests.0 ∙ idle));
      asked = λ n e. omega (arith, old.asked n e, h.requests.1);
      was_asked = old.was_asked;
      digested = old.digested;
      lower = old.lower;
      covers = λ w c. old.covers w (
          All-map (Agrees p rank digests W' w q.verified_at)
            (Agrees p rank digests W w q.verified_at) q.dependencies
            (λ d e. e ∙ ap (λ x. node_value rank p x d) (h.before q.verified_at le)) c);
    }

    is_input : k.kind ≡ Kind.input
    unfolding prospective_input_key
    is_input = refl

    pub found_query :
        (j : NodeKey) (q : NodeRecord S)
        → j.kind ≡ Kind.query
        → find node_keys j s'.records ≡ some q
        → find node_keys j s.records ≡ some q
    found_query j q e found =
        elim (find-put_cases node_keys k j r q s.records
          (sym (ap (find node_keys j) h.stored) ∙ found)) [
            | inl (same, _) ↦ absurd (ground (arith, (same_key_iff k j).0 same, is_input))
            | inr (other, old) ↦ old
          ]

    key_identity : k.identity ≡ key
    unfolding prospective_input_key
    key_identity = refl

    -- an input's node is that of its key
    same_input :
        (j : NodeKey) (q : NodeRecord S)
        → j.kind ≡ Kind.input
        → find node_keys j s.records ≡ some q
        → str_eq key j.identity ≡ true
        → same_key k j ≡ true
    unfolding prospective_input_key
    same_input j q e found same =
        (same_key_iff k j).1 (sym e, (eq_iff key j.identity).0 same, sym (inv.plain j q e found))

    plain_key : k.args_digest ≡ ""
    unfolding prospective_input_key
    plain_key = refl

    apart :
        (j : NodeKey) (q : NodeRecord S)
        → j.kind ≡ Kind.input
        → same_key k j ≡ false
        → find node_keys j s.records ≡ some q
        → str_eq key j.identity ≡ false
    apart j q e other found = elim (Bool-cases (str_eq key j.identity)) [
      | inl same ↦ absurd (ground (arith, same_input j q e found same))
      | inr differ ↦ differ
    ]

    other_key : (j : String) → str_eq key j ≡ false → same_key k (prospective_input_key j) ≡ false
    unfolding prospective_input_key
    other_key j other = elim (Bool-cases (same_key k (prospective_input_key j))) [
      | inl same ↦
          absurd
            (ground (arith, (eq_iff key j).1 ((same_key_iff k (prospective_input_key j)).0 same).1))
      | inr differ ↦ differ
    ]

    not_open : (n : ℕ) → s'.request ≢ some n
    not_open n e = cc (h.requests.0, idle)

    new-inputs :
        (j : NodeKey) (q : NodeRecord S)
        → j.kind ≡ Kind.input
        → find node_keys j s'.records ≡ some q
        → (W' base' j.identity ≡ some q.snapshot) × (j.args_digest ≡ "")
    new-inputs j q e found =
        elim (find-put_cases node_keys k j r q s.records
          (sym (ap (find node_keys j) h.stored) ∙ found)) [
            | inl (same, stored) ↦
                let (_, ei, ea) = (same_key_iff k j).0 same in
                (
                  ap (λ w. w j.identity) after_base
                      ∙ update_self (W base) key a j.identity
                          ((eq_iff key j.identity).1 (sym key_identity ∙ ei))
                      ∙ ap some (sym h.value_of)
                      ∙ ap (λ (x : NodeRecord S). some x.snapshot) stored,
                  sym ea ∙ plain_key,
                )
            | inr (other, old) ↦ (
              ap (λ w. w j.identity) after_base
                  ∙ update_other (W base) key a j.identity (apart j q e other old)
                  ∙ inv.inputs j q e old,
              inv.plain j q e old,
            )
          ]

    registered_other :
        (j : String) (v : S)
        → str_eq key j ≡ false
        → W base j ≡ some v
        → (find string_keys j s'.input_records ≡ some (prospective_input_key j))
          × (q : NodeRecord S) × (find node_keys (prospective_input_key j) s'.records ≡ some q)
    registered_other j v other set =
        let (reg, q, found) = inv.registered j v set in
        (
          h.others_registered j other ∙ reg,
          q,
          ap (find node_keys (prospective_input_key j)) h.stored
              ∙ find-put_other node_keys k (prospective_input_key j) r s.records (other_key j other)
              ∙ found,
        )

    new-registered :
        (j : String) (v : S)
        → W' base' j ≡ some v
        → (find string_keys j s'.input_records ≡ some (prospective_input_key j))
          × (q : NodeRecord S) × (find node_keys (prospective_input_key j) s'.records ≡ some q)
    new-registered j v set = elim (Bool-cases (str_eq key j)) [
      | inl same ↦
          subst
            (λ x.
              (find string_keys x s'.input_records ≡ some (prospective_input_key x))
              × (q : NodeRecord S) × (find node_keys (prospective_input_key x) s'.records ≡ some q))
            ((eq_iff key j).0 same)
            (
              h.key_registered,
              r,
              ap (find node_keys k) h.stored ∙ find-put_self node_keys k r s.records,
            )
      | inr other ↦
          registered_other j v other
            (sym (ap (λ w. w j) after_base ∙ update_other (W base) key a j other) ∙ set)
    ]

    new-names :
        (j : String) (n : NodeKey)
        → find string_keys j s'.input_records ≡ some n
        → n ≡ prospective_input_key j
    new-names j n found = elim (Bool-cases (str_eq key j)) [
      | inl same ↦ some_eq (
          sym found
          ∙ subst (λ x. find string_keys x s'.input_records ≡ some (prospective_input_key x))
              ((eq_iff key j).0 same) h.key_registered)
      | inr other ↦ inv.names j n (sym (h.others_registered j other) ∙ found)
    ]

    pub set-Inv : Inv p rank digests W' base' s'
    set-Inv = record {
      started = h.revisions.1;
      still = λ v le. h.after v le ∙ sym after_base;
      queries = λ j q e found.
          let (old, edges) = inv.queries j q e (found_query j q e found) in
          let le = h.settled j q e (found_query j q e found) in
          (
            new-QueryOk j q le old,
            All-map (EdgeOk p rank digests W s.records q.verified_at)
                (EdgeOk p rank digests W' s'.records q.verified_at) q.dependencies
                (λ d. edge q.verified_at d le) edges,
          );
      inputs = λ j q e found. (new-inputs j q e found).0;
      plain = λ j q e found. (new-inputs j q e found).1;
      registered = new-registered;
      names = new-names;
      evictable = subst (All (λ j. j.kind ≡ Kind.query)) (sym h.query_records) inv.evictable;
      open_request = λ n e. absurd (not_open n e);
      policies = h.handles;
    }
