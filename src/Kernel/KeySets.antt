-- ===== src/Kernel/KeySets.antt =====
-- Sets of keys, as lists: `discard` and the number of keys.
use pyinc.Prelude.{
  All, suc, ◌≤◌, ◌≡◌, true, false, Bool-cases, List, [], ◌∷◌, arith, inl, inr, length,
}
use pyinc.Kernel.Node.{NodeKey, same_key, same_key_sym, same_key_trans, contains}
use pyinc.Kernel.State.{discard}

discard-length : (k : NodeKey) (ks : List NodeKey) → length (discard k ks) ≤ length ks
unfolding discard
discard-length k [] = omega arith
discard-length k (j ∷ ks) = ground (arith, discard-length k ks)

pub discard-shorter :
    (k : NodeKey) (ks : List NodeKey)
    → contains k ks ≡ true
    → suc (length (discard k ks)) ≤ length ks
unfolding discard contains
discard-shorter k [] h = absurd cc
discard-shorter k (j ∷ ks) h = elim (Bool-cases (same_key j k)) [
  | inl same ↦ ground (arith, same, discard-length k ks)
  | inr other ↦ ground (arith, other, h, discard-shorter k ks)
]

-- The keys of a list, each once
abbrev pub AreDistinct : List NodeKey → Type 0
AreDistinct [] = Unit
AreDistinct (k ∷ ks) = (contains k ks ≡ false) × AreDistinct ks

pub contains-discard :
    (k j : NodeKey) (ks : List NodeKey)
    → same_key k j ≡ false
    → contains j ks ≡ true
    → contains j (discard k ks) ≡ true
unfolding contains discard
contains-discard k j [] other h = absurd cc
contains-discard k j (i ∷ ks) other h = elim (Bool-cases (same_key i k)) [
  | inl same ↦ elim (Bool-cases (same_key i j)) [
    | inl also ↦ absurd (cc (other, same_key_trans k i j (same_key_sym i k same) also))
    | inr differs ↦ ground (arith, same, differs, h, contains-discard k j ks other)
  ]
  | inr differs ↦ ground (arith, differs, h, contains-discard k j ks other)
]

all_contained-discard :
    (k : NodeKey) (ks qs : List NodeKey)
    → contains k ks ≡ false
    → All (λ j. contains j qs ≡ true) ks
    → All (λ j. contains j (discard k qs) ≡ true) ks
unfolding contains
all_contained-discard k [] qs h all = tt
all_contained-discard k (j ∷ ks) qs h all = elim (Bool-cases (same_key k j)) [
  | inl same ↦ absurd (ground (arith, h, same_key_sym k j same))
  | inr other ↦
      (contains-discard k j qs other all.0, all_contained-discard k ks qs (ground (arith, h)) all.1)
]

-- A list without repetitions is no longer than a list that has all of its keys.
pub length-contained :
    (ks qs : List NodeKey)
    → AreDistinct ks
    → All (λ j. contains j qs ≡ true) ks
    → length ks ≤ length qs
length-contained [] qs distinct all = omega arith
length-contained (k ∷ ks) qs distinct all = omega (
  arith,
  discard-shorter k qs all.0,
  length-contained ks (discard k qs) distinct.1 (all_contained-discard k ks qs distinct.0 all.1),
)
