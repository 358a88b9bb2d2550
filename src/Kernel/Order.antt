-- ===== src/Kernel/Order.antt =====
-- runtime.py, the dependencies sorted by label: predicates of all of them.
use pyinc.Prelude.{List, [], ◌∷◌, All, Bool-cases, inl, inr}
use pyinc.Kernel.Node.{NodeKey}
use pyinc.Kernel.Verify.{label_before, insert_by_label, sort_by_label}

module _ (P : NodeKey → Type 0) where
  insert-All : (k : NodeKey) (ks : List NodeKey) → P k → All P ks → All P (insert_by_label k ks)
  unfolding insert_by_label
  insert-All k [] h hs = (h, tt)
  insert-All k (j ∷ ks) h hs = elim (Bool-cases (label_before k j)) [
    | inl before ↦ rw before (h, hs)
    | inr after ↦ rw after (hs.0, insert-All k ks h hs.1)
  ]

  pub sort-All : (ks : List NodeKey) → All P ks → All P (sort_by_label ks)
  unfolding sort_by_label
  sort-All [] hs = tt
  sort-All (k ∷ ks) hs = insert-All k (sort_by_label ks) hs.0 (sort-All ks hs.1)

  insert-All_inv : (k : NodeKey) (ks : List NodeKey) → All P (insert_by_label k ks) → P k × All P ks
  unfolding insert_by_label
  insert-All_inv k [] h = (h.0, tt)
  insert-All_inv k (j ∷ ks) h = elim (Bool-cases (label_before k j)) [
    | inl before ↦ let h' : P k × All P (j ∷ ks) = rw before at h in h'
    | inr after ↦
        let h' : P j × All P (insert_by_label k ks) = rw after at h in
        let (hk, hs) = insert-All_inv k ks h'.1 in (hk, (h'.0, hs))
  ]

  pub sort-All_inv : (ks : List NodeKey) → All P (sort_by_label ks) → All P ks
  unfolding sort_by_label
  sort-All_inv [] h = tt
  sort-All_inv (k ∷ ks) h =
      let (hk, hs) = insert-All_inv k (sort_by_label ks) h in (hk, sort-All_inv ks hs)
