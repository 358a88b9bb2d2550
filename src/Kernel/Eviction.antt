-- ===== src/Kernel/Eviction.antt =====
-- runtime.py, `_evict_query_nodes_if_needed` and `_evict_query_record`: the limit on stored queries, and
-- which of them goes first.
use pyinc.Prelude.{
  ℕ, All, if◌then◌else◌, zero, suc, ◌≤◌, ◌≡◌, refl, sym, ◌∙◌, ap, true, Bool-cases, some,
  Option-cases, List, [], ◌∷◌, arith, inl, inr, length, ltb, ltb-false, is_some,
}
use mathlib.Core.Path.{subst}
use pyinc.Assoc.{find-remove}
use pyinc.Kernel.Node.{Kind, NodeKey, same_key, same_key_refl, node_keys, contains}
use pyinc.Kernel.State.{Database, get_record, discard, evict_query_record}
use pyinc.Kernel.Requests.{
  last_used, least_recent, evict_one, evict_rounds, evict_query_nodes_if_needed,
}
use pyinc.Kernel.KeySets.{AreDistinct, discard-shorter, contains-discard, length-contained}

module _ {S : Type 0} where
  -- Every query with a record is in the set of the stored queries.
  abbrev pub IsIndexed : Database S → Type 0
  IsIndexed s =
      (k : NodeKey)
      → k.kind ≡ Kind.query
      → is_some (get_record k s) ≡ true
      → contains k s.query_records ≡ true

  evict_query_record-IsIndexed :
      (j : NodeKey) (s : Database S) → IsIndexed s → IsIndexed (evict_query_record j s)
  unfolding evict_query_record
  evict_query_record-IsIndexed j s h k is_query stored = elim (Bool-cases (same_key j k)) [
    | inl same ↦ absurd (ground (arith, same, stored, find-remove node_keys j k s.records))
    | inr other ↦
        contains-discard j k s.query_records other
          (h k is_query (ground (arith, other, stored, find-remove node_keys j k s.records)))
  ]

  evict_one-IsIndexed :
      (s : Database S) (qs : List NodeKey) → IsIndexed s → IsIndexed (evict_one s qs)
  unfolding evict_one
  evict_one-IsIndexed s [] h = h
  evict_one-IsIndexed s (k ∷ ks) h = evict_query_record-IsIndexed (least_recent s k ks) s h

  evict_rounds-IsIndexed :
      (n limit : ℕ) (s : Database S) → IsIndexed s → IsIndexed (evict_rounds n limit s)
  unfolding evict_rounds
  evict_rounds-IsIndexed zero limit s h = h
  evict_rounds-IsIndexed (suc n) limit s h =
      elim (Bool-cases (ltb limit (length s.query_records))) [
        | inl over ↦ rw over (
            evict_rounds-IsIndexed n limit (evict_one s s.query_records)
              (evict_one-IsIndexed s s.query_records h))
        | inr within ↦ rw within h
      ]

  least_recent-contains :
      (s : Database S) (k : NodeKey) (ks : List NodeKey)
      → contains (least_recent s k ks) (k ∷ ks) ≡ true
  unfolding least_recent contains
  least_recent-contains s k [] = ground (arith, same_key_refl k)
  least_recent-contains s k (j ∷ js) = elim (Bool-cases (ltb (last_used s j) (last_used s k))) [
    | inl older ↦ ground (arith, older, least_recent-contains s j js)
    | inr newer ↦ ground (arith, newer, least_recent-contains s k js)
  ]

  least_of_two :
      (s : Database S) (k j m : NodeKey) (n : ℕ)
      → m ≡ (if ltb (last_used s j) (last_used s k) then j else k)
      → n ≤ last_used s m
      → (n ≤ last_used s k) × (n ≤ last_used s j)
  least_of_two s k j m n e le = elim (Bool-cases (ltb (last_used s j) (last_used s k))) [
    | inl older ↦
        let same : m ≡ j = e ∙ ground (arith, older) in
        ground (arith, older, ap (last_used s) same, le)
    | inr newer ↦
        let same : m ≡ k = e ∙ ground (arith, newer) in
        ground (arith, newer, ap (last_used s) same, le)
  ]

  -- The key that eviction takes of a list was used no later than any key of the list, where a key
  -- that was never used counts as used before all others.
  pub least_recent-last_used :
      (s : Database S) (k : NodeKey) (ks : List NodeKey)
      → All (λ j. last_used s (least_recent s k ks) ≤ last_used s j) (k ∷ ks)
  unfolding least_recent
  least_recent-last_used s k [] = (omega arith, tt)
  least_recent-last_used s k (j ∷ js) =
      let m = if ltb (last_used s j) (last_used s k) then j else k in
      let (first, rest) = least_recent-last_used s m js in
      let (of_k, of_j) = least_of_two s k j m (last_used s (least_recent s m js)) refl first in
      (of_k, (of_j, rest))

  evict_one-shorter :
      (s : Database S) (limit : ℕ) (qs : List NodeKey)
      → s.query_records ≡ qs
      → ltb limit (length qs) ≡ true
      → suc (length (evict_one s qs).query_records) ≤ length qs
  unfolding evict_one evict_query_record
  evict_one-shorter s limit [] e over = absurd (ground (arith, over))
  evict_one-shorter s limit (k ∷ ks) e over =
      let gone = least_recent s k ks in
      omega (
        arith,
        discard-shorter gone (k ∷ ks) (least_recent-contains s k ks),
        ap (λ qs. length (discard gone qs)) e,
      )

  evict_rounds-length :
      (n limit : ℕ) (s : Database S)
      → length s.query_records ≤ n
      → length (evict_rounds n limit s).query_records ≤ limit
  unfolding evict_rounds
  evict_rounds-length zero limit s h = omega arith
  evict_rounds-length (suc n) limit s h = elim (Bool-cases (ltb limit (length s.query_records))) [
    | inl over ↦ rw over (
        evict_rounds-length n limit (evict_one s s.query_records)
          (omega (arith, evict_one-shorter s limit s.query_records refl over)))
    | inr within ↦ rw within (ltb-false limit (length s.query_records) within)
  ]

  pub evict-IsIndexed : (s : Database S) → IsIndexed s → IsIndexed (evict_query_nodes_if_needed s)
  unfolding evict_query_nodes_if_needed
  evict-IsIndexed s h = elim (Option-cases s.max_query_nodes) [
    | inl unlimited ↦
        let same : evict_query_nodes_if_needed s ≡ s = ground (arith, unlimited) in
        subst IsIndexed (sym same) h
    | inr (limit, e) ↦
        let rounds = evict_rounds (length s.query_records) limit s in
        let same : evict_query_nodes_if_needed s ≡ rounds = ground (arith, e) in
        subst IsIndexed (sym same) (evict_rounds-IsIndexed (length s.query_records) limit s h)
  ]

  evict-length :
      (s : Database S) (limit : ℕ)
      → s.max_query_nodes ≡ some limit
      → length (evict_query_nodes_if_needed s).query_records ≤ limit
  unfolding evict_query_nodes_if_needed
  evict-length s limit e =
      rw (e, evict_query_nodes_if_needed)
        (evict_rounds-length (length s.query_records) limit s (omega arith))

  all_indexed :
      (s : Database S) (ks : List NodeKey)
      → IsIndexed s
      → All (λ k. (k.kind ≡ Kind.query) × (is_some (get_record k s) ≡ true)) ks
      → All (λ k. contains k s.query_records ≡ true) ks
  all_indexed s [] h all = tt
  all_indexed s (k ∷ ks) h all = (h k all.0.0 all.0.1, all_indexed s ks h all.1)

  -- Where every query with a record is in the set of the stored queries, eviction leaves records of at
  -- most as many queries as the limit says.
  pub evict-stored :
      (s : Database S) (limit : ℕ) (ks : List NodeKey)
      → s.max_query_nodes ≡ some limit
      → IsIndexed s
      → AreDistinct ks
      → All
          (λ k.
            (k.kind ≡ Kind.query) × (is_some (get_record k (evict_query_nodes_if_needed s)) ≡ true))
          ks
      → length ks ≤ limit
  evict-stored s limit ks e indexed distinct stored =
      let t = evict_query_nodes_if_needed s in
      omega (
        arith,
        evict-length s limit e,
        length-contained ks t.query_records distinct
            (all_indexed t ks (evict-IsIndexed s indexed) stored),
      )
