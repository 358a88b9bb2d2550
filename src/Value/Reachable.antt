-- ===== src/Value/Reachable.antt =====
-- value.py, the end of `_validate_snapshot`: what the loop over pending indices finds.
use mathlib.Core.Path.{subst}
use pyinc.Prelude.{
  In-cases, ℕ, zero, suc, ◌+◌, ◌≤◌, ◌<◌, ◌≡◌, refl, sym, ◌∙◌, ap, true, false, Bool-cases, Option,
  some, List, [], ◌∷◌, length, arith, inl, inr, if◌then◌else◌, ◌==◌, ltb, In, here, there, ◌⊎◌,
}
use pyinc.Value.Reach.{contains, extend_pending, reach, Reached, from_start, by_ref, ref_count}

contains-In : (i : ℕ) (js : List ℕ) → contains i js ≡ true → In i js
unfolding contains
contains-In i [] h = absurd cc
contains-In i (j ∷ js) h = elim (Bool-cases (j == i)) [
  | inl same ↦ let e : i ≡ j = ground (arith, same) in subst (λ x. In i (x ∷ js)) e here
  | inr other ↦ there (contains-In i js (ground (arith, other, h)))
]

In-contains : (i : ℕ) (js : List ℕ) → In i js → contains i js ≡ true
unfolding contains
In-contains i [] m = elim m [ ]
In-contains i (j ∷ js) here = ground arith
In-contains i (j ∷ js) (there m) = ground (arith, In-contains i js m)

extend_pending-length :
    (is pending : List ℕ) → length (extend_pending is pending) ≡ length is + length pending
unfolding extend_pending
extend_pending-length [] pending = omega arith
extend_pending-length (i ∷ is) pending = omega (arith, extend_pending-length is (i ∷ pending))

In-extend_pending :
    (j : ℕ) (is pending : List ℕ) → In j is ⊎ In j pending → In j (extend_pending is pending)
unfolding extend_pending
In-extend_pending j [] pending (inl m) = elim m [ ]
In-extend_pending j [] pending (inr m) = m
In-extend_pending j (i ∷ is) pending (inl here) = In-extend_pending j is (i ∷ pending) (inr here)
In-extend_pending j (i ∷ is) pending (inl (there m)) = In-extend_pending j is (i ∷ pending) (inl m)
In-extend_pending j (i ∷ is) pending (inr m) = In-extend_pending j is (i ∷ pending) (inr (there m))

In-extend_inv :
    (j : ℕ) (is pending : List ℕ) → In j (extend_pending is pending) → In j is ⊎ In j pending
unfolding extend_pending
In-extend_inv j [] pending m = inr m
In-extend_inv j (i ∷ is) pending m = elim (In-extend_inv j is (i ∷ pending) m) [
  | inl m' ↦ inl (there m')
  | inr m' ↦ elim (In-cases m') [
    | inl e ↦ inl (subst (λ x. In j (x ∷ is)) e here)
    | inr m'' ↦ inr m''
  ]
]

module _ (refs : ℕ → List ℕ) (n : ℕ) (bounded : (i : ℕ) → n ≤ i → refs i ≡ []) where
  -- The references of the nodes below `k` that are not expanded yet.
  unfoldable left : ℕ → List ℕ → ℕ
  left zero reachable = 0
  left (suc k) reachable =
      let rest = left k reachable in if contains k reachable then rest else length (refs k) + rest

  left-above : (k i : ℕ) (r : List ℕ) → k ≤ i → left k (i ∷ r) ≡ left k r
  unfolding left contains
  left-above zero i r h = refl
  left-above (suc k) i r h = ground (arith, left-above k i r)

  left-expand :
      (k i : ℕ) (r : List ℕ)
      → contains i r ≡ false
      → i < k
      → left k (i ∷ r) + length (refs i) ≡ left k r
  unfolding left contains
  left-expand zero i r fresh h = absurd (omega arith)
  left-expand (suc k) i r fresh h = elim (Bool-cases (i == k)) [
    | inl same ↦
        let e : i ≡ k = ground (arith, same) in
        ground (
          arith,
          same,
          sym (ap (λ x. contains x r) e) ∙ fresh,
          ap (λ x. length (refs x)) e,
          left-above k i r (omega (arith, e)),
        )
    | inr other ↦ ground (arith, other, left-expand k i r fresh)
  ]

  left-none : (k : ℕ) → left k [] ≡ ref_count refs k
  unfolding left contains ref_count
  left-none zero = refl
  left-none (suc k) = omega (arith, left-none k)

  left-all :
      (i : ℕ) (r : List ℕ) → contains i r ≡ false → left n (i ∷ r) + length (refs i) ≡ left n r
  left-all i r fresh = elim (Bool-cases (ltb i n)) [
    | inl below ↦ left-expand n i r fresh (ground (arith, below))
    | inr above ↦
        let le : n ≤ i = ground (arith, above) in
        omega (arith, ap length (bounded i le), left-above n i r le)
  ]

  module _ (start : List ℕ) where
    -- Where the loop is: what was reached, and what is pending.
    record Between (pending reachable : List ℕ) : Type 0 where
      pending_sound : (j : ℕ) → In j pending → Reached refs start j
      reachable_sound : (j : ℕ) → In j reachable → Reached refs start j
      started : (j : ℕ) → In j start → In j pending ⊎ In j reachable
      closed : (i j : ℕ) → In i reachable → In j (refs i) → In j pending ⊎ In j reachable

    -- The result has the indices that are reached, and no other.
    pub record Found (result : Option (List ℕ)) : Type 0 where
      pub reachable : List ℕ
      pub returns : result ≡ some reachable
      pub sound : (j : ℕ) → contains j reachable ≡ true → Reached refs start j
      pub complete : (j : ℕ) → Reached refs start j → contains j reachable ≡ true

    Reached-all : (r : List ℕ) → Between [] r → (j : ℕ) → Reached refs start j → In j r
    Reached-all r b j (from_start m) = elim (b.started j m) [ inl m' ↦ elim m' [ ] | inr m' ↦ m' ]
    Reached-all r b j (by_ref {i} h m) = elim (b.closed i j (Reached-all r b i h) m) [
      | inl m' ↦ elim m' [ ]
      | inr m' ↦ m'
    ]

    again-Between :
        (i : ℕ) (pending r : List ℕ)
        → contains i r ≡ true
        → Between (i ∷ pending) r
        → Between pending r
    again-Between i pending r old b = record {
      pending_sound = λ j m. b.pending_sound j (there m);
      reachable_sound = b.reachable_sound;
      started = λ j m. moved j (b.started j m);
      closed = λ k j m m'. moved j (b.closed k j m m');
    }
      where
        moved : (j : ℕ) → In j (i ∷ pending) ⊎ In j r → In j pending ⊎ In j r
        moved j (inl m) = elim (In-cases m) [
          | inl e ↦ inr (subst (λ x. In x r) (sym e) (contains-In i r old))
          | inr m' ↦ inl m'
        ]
        moved j (inr m) = inr m

    further-Between :
        (i : ℕ) (pending r : List ℕ)
        → Between (i ∷ pending) r
        → Between (extend_pending (refs i) pending) (i ∷ r)
    further-Between i pending r b = record {
      pending_sound = λ j m. elim (In-extend_inv j (refs i) pending m) [
        | inl m' ↦ by_ref (b.pending_sound i here) m'
        | inr m' ↦ b.pending_sound j (there m')
      ];
      reachable_sound = λ j m. elim (In-cases m) [
        | inl e ↦ subst (Reached refs start) (sym e) (b.pending_sound i here)
        | inr m' ↦ b.reachable_sound j m'
      ];
      started = λ j m. moved j (b.started j m);
      closed = λ k j m m'. elim (In-cases m) [
        | inl e ↦ inl (In-extend_pending j (refs i) pending (inl (subst (λ x. In j (refs x)) e m')))
        | inr m'' ↦ moved j (b.closed k j m'' m')
      ];
    }
      where
        moved :
            (j : ℕ)
            → In j (i ∷ pending) ⊎ In j r
            → In j (extend_pending (refs i) pending) ⊎ In j (i ∷ r)
        moved j (inl m) = elim (In-cases m) [
          | inl e ↦ inr (subst (λ x. In x (i ∷ r)) (sym e) here)
          | inr m' ↦ inl (In-extend_pending j (refs i) pending (inr m'))
        ]
        moved j (inr m) = inr (there m)

    reach-Found :
        (fuel : ℕ) (pending r : List ℕ)
        → length pending + left n r ≤ fuel
        → Between pending r
        → Found (reach refs fuel pending r)
    unfolding reach
    reach-Found fuel [] r le b = record {
      reachable = r;
      returns = refl;
      sound = λ j h. b.reachable_sound j (contains-In j r h);
      complete = λ j h. In-contains j r (Reached-all r b j h);
    }
    reach-Found zero (i ∷ pending) r le b = absurd (omega (arith, le))
    reach-Found (suc fuel) (i ∷ pending) r le b = elim (Bool-cases (contains i r)) [
      | inl old ↦
          rw old (reach-Found fuel pending r (omega (arith, le)) (again-Between i pending r old b))
      | inr fresh ↦ rw fresh (
          reach-Found fuel (extend_pending (refs i) pending) (i ∷ r)
            (omega (arith, le, extend_pending-length (refs i) pending, left-all i r fresh))
            (further-Between i pending r b))
    ]

    -- The loop from the references of the root, with one round for each reference.
    pub reach_lem :
        Found (reach refs (length start + ref_count refs n) (extend_pending start []) [])
    reach_lem =
        reach-Found (length start + ref_count refs n) (extend_pending start []) []
          (omega (arith, extend_pending-length start [], left-none n))
          (record {
            pending_sound = λ j m. elim (In-extend_inv j start [] m) [
              | inl m' ↦ from_start m'
              | inr m' ↦ elim m' [ ]
            ];
            reachable_sound = λ j m. elim m [ ];
            started = λ j m. inl (In-extend_pending j start [] (inl m));
            closed = λ i j m m'. elim m [ ];
          })
