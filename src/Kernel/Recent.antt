-- ===== src/Kernel/Recent.antt =====
-- runtime.py, `_evict_query_nodes_if_needed`: which queries stay.
use pyinc.Prelude.{
  ℕ, All, zero, suc, ◌≤◌, ◌≡◌, refl, sym, true, false, Bool-cases, Option-cases, List, [], ◌∷◌,
  arith, inl, inr, length, ltb,
}
use mathlib.Core.Path.{subst}
use pyinc.Assoc.{find, find-remove, find-cong}
use pyinc.Kernel.Node.{NodeKey, same_key, same_key_sym, same_key_trans, node_keys, contains}
use pyinc.Kernel.State.{Database, discard, evict_query_record}
use pyinc.Kernel.Requests.{
  last_used, least_recent, evict_one, evict_rounds, evict_query_nodes_if_needed,
}
use pyinc.Kernel.KeySets.{contains-discard}
use pyinc.Kernel.Eviction.{least_recent-last_used}

discard-contains :
    (k j : NodeKey) (ks : List NodeKey)
    → contains j (discard k ks) ≡ true
    → (contains j ks ≡ true) × (same_key k j ≡ false)
unfolding contains discard
discard-contains k j [] h = absurd cc
discard-contains k j (i ∷ ks) h = elim (Bool-cases (same_key i k)) [
  | inl same ↦
      let rest = discard-contains k j ks (ground (arith, same, h)) in
      (ground (arith, rest.0), rest.1)
  | inr differs ↦ elim (Bool-cases (same_key i j)) [
    | inl here ↦ (
      ground (arith, here),
      elim (Bool-cases (same_key k j)) [
        | inl also ↦ absurd (cc (differs, same_key_trans i j k here (same_key_sym k j also)))
        | inr other ↦ other
      ],
    )
    | inr there ↦
        let rest = discard-contains k j ks (ground (arith, differs, there, h)) in
        (ground (arith, rest.0), rest.1)
  ]
]

module _ {S : Type 0} where
  last_used-cong :
      (s : Database S) (k j : NodeKey) → same_key k j ≡ true → last_used s k ≡ last_used s j
  unfolding last_used
  last_used-cong s k j same = rw (find-cong node_keys k j s.query_last_used same, last_used) refl

  least-contained :
      (s : Database S) (n : ℕ) (i : NodeKey) (qs : List NodeKey)
      → All (λ q. n ≤ last_used s q) qs
      → contains i qs ≡ true
      → n ≤ last_used s i
  unfolding contains
  least-contained s n i [] all h = absurd cc
  least-contained s n i (q ∷ qs) all h = elim (Bool-cases (same_key q i)) [
    | inl same ↦ omega (arith, all.0, last_used-cong s q i same)
    | inr other ↦ least-contained s n i qs all.1 (ground (arith, other, h))
  ]

  last_used-evict :
      (k j : NodeKey) (s : Database S)
      → same_key k j ≡ false
      → last_used (evict_query_record k s) j ≡ last_used s j
  unfolding last_used evict_query_record
  last_used-evict k j s other =
      let same : find node_keys j (evict_query_record k s).query_last_used
          ≡ find node_keys j s.query_last_used =
        ground (arith, other, find-remove node_keys k j s.query_last_used) in
      ground (arith, same)

  -- One query is taken; of the others, what holds after it held before it.
  recent-step :
      (s : Database S) (qs : List NodeKey) (j i : NodeKey)
      → s.query_records ≡ qs
      → contains j qs ≡ true
      → contains i (evict_one s qs).query_records ≡ true
      → (contains j (evict_one s qs).query_records ≡ true
          → last_used (evict_one s qs) j ≤ last_used (evict_one s qs) i)
      → last_used s j ≤ last_used s i
  unfolding evict_one evict_query_record contains
  recent-step s [] j i e hj hi later = absurd (cc hj)
  recent-step s (k ∷ ks) j i e hj hi later =
      let gone = least_recent s k ks in
      let kept = discard-contains gone i s.query_records hi in
      let least =
        least-contained s (last_used s gone) i (k ∷ ks) (least_recent-last_used s k ks)
          (subst (λ qs. contains i qs ≡ true) e kept.0) in
      elim (Bool-cases (same_key gone j)) [
        | inl same ↦ omega (arith, least, last_used-cong s gone j same)
        | inr other ↦ omega (
          arith,
          later (
              contains-discard gone j s.query_records other
                (subst (λ qs. contains j qs ≡ true) (sym e) hj)),
          last_used-evict gone j s other,
          last_used-evict gone i s kept.1,
        )
      ]

  evict_one-contains :
      (s : Database S) (qs : List NodeKey) (i : NodeKey)
      → contains i (evict_one s qs).query_records ≡ true
      → contains i s.query_records ≡ true
  unfolding evict_one evict_query_record
  evict_one-contains s [] i h = h
  evict_one-contains s (k ∷ ks) i h = (discard-contains (least_recent s k ks) i s.query_records h).0

  rounds-contains :
      (n limit : ℕ) (s : Database S) (i : NodeKey)
      → contains i (evict_rounds n limit s).query_records ≡ true
      → contains i s.query_records ≡ true
  unfolding evict_rounds
  rounds-contains zero limit s i h = h
  rounds-contains (suc n) limit s i h = elim (Bool-cases (ltb limit (length s.query_records))) [
    | inl over ↦
        let t = evict_one s s.query_records in
        evict_one-contains s s.query_records i
          (rounds-contains n limit t i (ground (arith, over, h)))
    | inr within ↦ ground (arith, within, h)
  ]

  rounds-recent :
      (n limit : ℕ) (s : Database S) (j i : NodeKey)
      → contains j s.query_records ≡ true
      → contains j (evict_rounds n limit s).query_records ≡ false
      → contains i (evict_rounds n limit s).query_records ≡ true
      → last_used s j ≤ last_used s i
  unfolding evict_rounds
  rounds-recent zero limit s j i hj out hi = absurd cc
  rounds-recent (suc n) limit s j i hj out hi =
      elim (Bool-cases (ltb limit (length s.query_records))) [
        | inl over ↦
            let t = evict_one s s.query_records in
            let hi' : contains i (evict_rounds n limit t).query_records ≡ true =
              ground (arith, over, hi) in
            recent-step s s.query_records j i refl hj (rounds-contains n limit t i hi')
              (λ still. rounds-recent n limit t j i still (ground (arith, over, out)) hi')
        | inr within ↦ absurd (ground (arith, within, hj, out))
      ]

  -- Eviction takes the queries that were used least recently: a stored query that goes was used no
  -- later than any that stays, where a query that was never used counts as used before all others.
  pub evict-recent :
      (s : Database S) (j i : NodeKey)
      → contains j s.query_records ≡ true
      → contains j (evict_query_nodes_if_needed s).query_records ≡ false
      → contains i (evict_query_nodes_if_needed s).query_records ≡ true
      → last_used s j ≤ last_used s i
  unfolding evict_query_nodes_if_needed
  evict-recent s j i hj out hi = elim (Option-cases s.max_query_nodes) [
    | inl unlimited ↦ absurd (ground (arith, unlimited, hj, out))
    | inr (limit, e) ↦
        rounds-recent (length s.query_records) limit s j i hj (ground (arith, e, out))
          (ground (arith, e, hi))
  ]
