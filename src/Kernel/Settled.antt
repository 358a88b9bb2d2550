-- ===== src/Kernel/Settled.antt =====
-- Nodes whose value is known to be that of the open request, and what an evaluation leaves alone.
use pyinc.Prelude.{
  ℕ, suc, ◌≤◌, ◌≡◌, refl, sym, ◌∙◌, true, false, some, List, [], ◌∷◌, arith, All, Bool-cases, inl,
  inr,
}
use native.Mathlib.Nat.{le_refl, le_trans}
use pyinc.Assoc.{find, put, find-cong, find-put_self, find-put_other}
use pyinc.Kernel.Node.{Kind, NodeKey, same_key, same_key_iff, node_keys, contains, add}
use pyinc.Kernel.State.{NodeRecord, ExecutionFrame, on_stack}
use pyinc.Kernel.Fresh.{Rank, rank_of}
use pyinc.Kernel.Invariant.{Core}

module _ {S : Type 0} where
  -- The record of `d` is that of an input, or was checked in the open request.
  pub record Settled (s : Core S) (d : NodeKey) : Type 0 where
    pub found : NodeRecord S
    pub at : find node_keys d s.records ≡ some found
    pub checked : d.kind ≡ Kind.query → found.checked_in_request ≡ s.request

  module _ (rank : Rank) where
    -- From `s` to `s'` only queries of a rank below `n` were evaluated.
    pub record Later (n : ℕ) (s s' : Core S) : Type 0 where
      pub request : s'.request ≡ s.request
      pub counter : s'.request_counter ≡ s.request_counter
      pub input_records : s'.input_records ≡ s.input_records
      pub inputs_by_key : s'.inputs_by_key ≡ s.inputs_by_key
      pub revision : s.revision ≤ s'.revision
      pub untouched :
          (j : NodeKey)
          → (j.kind ≡ Kind.query → n ≤ rank_of rank j)
          → find node_keys j s'.records ≡ find node_keys j s.records
      pub settled : (d : NodeKey) → Settled s d → Settled s' d

    pub Later-refl : (n : ℕ) (s : Core S) → Later n s s
    Later-refl n s = record {
      request = refl;
      counter = refl;
      input_records = refl;
      inputs_by_key = refl;
      revision = le_refl s.revision;
      untouched = λ j h. refl;
      settled = λ d h. h;
    }

    pub Later-trans : {n m : ℕ} {s t u : Core S} → n ≤ m → Later n s t → Later m t u → Later m s u
    Later-trans le a b = record {
      request = b.request ∙ a.request;
      counter = b.counter ∙ a.counter;
      input_records = b.input_records ∙ a.input_records;
      inputs_by_key = b.inputs_by_key ∙ a.inputs_by_key;
      revision = le_trans a.revision b.revision;
      untouched = λ j h. b.untouched j h ∙ a.untouched j (λ e. le_trans le (h e));
      settled = λ d h. b.settled d (a.settled d h);
    }

    -- Storing a record that was checked in the open request.
    module _ (s : Core S) (k : NodeKey) (r : NodeRecord S) (now : ℕ) (qs : List NodeKey)
        (later : s.revision ≤ now) (is_query : k.kind ≡ Kind.query)
        (checked : r.checked_in_request ≡ s.request) where
      abbrev stored : Core S
      stored = record s {
        revision = now;
        records = put node_keys k r s.records;
        query_records = qs;
      }

      pub put-Settled_self : Settled stored k
      put-Settled_self = record {
        found = r;
        at = find-put_self node_keys k r s.records;
        checked = λ e. checked;
      }

      put-Settled : (d : NodeKey) → Settled s d → Settled stored d
      put-Settled d h = elim (Bool-cases (same_key k d)) [
        | inl same ↦ record {
          found = r;
          at =
              sym (find-cong node_keys k d (put node_keys k r s.records) same)
              ∙ find-put_self node_keys k r s.records;
          checked = λ e. checked;
        }
        | inr other ↦ record {
          found = h.found;
          at = find-put_other node_keys k d r s.records other ∙ h.at;
          checked = h.checked;
        }
      ]

      put-untouched :
          (j : NodeKey)
          → (j.kind ≡ Kind.query → suc (rank_of rank k) ≤ rank_of rank j)
          → find node_keys j stored.records ≡ find node_keys j s.records
      put-untouched j h = elim (Bool-cases (same_key k j)) [
        | inl same ↦
            let (ek, ei, ea) = (same_key_iff k j).0 same in
            let eq : rank_of rank k ≡ rank_of rank j = λ i. rank (ei i) (ea i) in
            absurd (omega (arith, eq, h (sym ek ∙ is_query)))
        | inr other ↦ find-put_other node_keys k j r s.records other
      ]

      pub put-Later : Later (suc (rank_of rank k)) s stored
      put-Later = record {
        request = refl;
        counter = refl;
        input_records = refl;
        inputs_by_key = refl;
        revision = later;
        untouched = put-untouched;
        settled = put-Settled;
      }

module _ (rank : Rank) where
  -- The frames of the stack are those of queries of rank `n` or more.
  abbrev pub Above : ℕ → List ExecutionFrame → Type 0
  Above n = All (λ f. n ≤ rank_of rank f.key)

  pub not-on_stack :
      (k : NodeKey) (fs : List ExecutionFrame)
      → Above (suc (rank_of rank k)) fs
      → on_stack k fs ≡ false
  unfolding on_stack
  not-on_stack k [] h = refl
  not-on_stack k (f ∷ fs) h = elim (Bool-cases (same_key f.key k)) [
    | inl same ↦
        let (ek, ei, ea) = (same_key_iff f.key k).0 same in
        let eq : rank_of rank f.key ≡ rank_of rank k = λ i. rank (ei i) (ea i) in
        absurd (omega (arith, eq, h.0))
    | inr other ↦ rw other (not-on_stack k fs h.1)
  ]

-- Sets of keys.
pub All-add :
    (P : NodeKey → Type 0) (k : NodeKey) (ks : List NodeKey) → P k → All P ks → All P (add k ks)
unfolding add
All-add P k ks h hs = elim (Bool-cases (contains k ks)) [
  | inl old ↦ rw old hs
  | inr new ↦ rw new (h, hs)
]

All-contains :
    (P : NodeKey → Type 0) (k : NodeKey) (ks : List NodeKey)
    → ((j : NodeKey) → same_key j k ≡ true → P j → P k)
    → contains k ks ≡ true
    → All P ks
    → P k
unfolding contains
All-contains P k [] same h hs = cc
All-contains P k (j ∷ ks) same h hs = elim (Bool-cases (same_key j k)) [
  | inl e ↦ same j e hs.0
  | inr e ↦ All-contains P k ks same (ground (arith)) hs.1
]

-- What holds of every member of the larger set holds of the new member and of the old ones.
pub All-of_add :
    (P : NodeKey → Type 0) (k : NodeKey) (ks : List NodeKey)
    → ((j : NodeKey) → same_key j k ≡ true → P j → P k)
    → All P (add k ks)
    → P k × All P ks
unfolding add
All-of_add P k ks same hs = elim (Bool-cases (contains k ks)) [
  | inl old ↦ let hs' : All P ks = rw old at hs in (All-contains P k ks same old hs', hs')
  | inr new ↦ rw new at hs
]
