-- ===== src/Value/Ascending.antt =====
-- Lists in strictly ascending order of a text of each element: equal where they have the same elements.
use Prim.Native.Nat.{Ordering}
use Prim.Native.String.compare
use Prim.Native.String.{[] as nil, ◌∷◌ as cons, compare}
use text.Mathlib.TextPositions.{compare_refl}
use mathlib.Core.Path.{subst}
use pyinc.Prelude.{
  ◌≡◌, ◌≢◌, refl, sym, ◌∙◌, ap, List, [], ◌∷◌, String, arith, All, All-at, In, here, there,
  In-cases, ◌↔◌, inl, inr,
}

pub compare_trans :
    (s t u : String)
    → compare s t ≡ Ordering.lt
    → compare t u ≡ Ordering.lt
    → compare s u ≡ Ordering.lt
compare_trans nil nil u h k = absurd cc
compare_trans nil (cons d t) nil h k = absurd (ground (arith, k, compare.cons-nil d t))
compare_trans nil (cons d t) (cons e u) h k = compare.nil-cons e u
compare_trans (cons c s) nil u h k = absurd (ground (arith, h, compare.cons-nil c s))
compare_trans (cons c s) (cons d t) nil h k = absurd (ground (arith, k, compare.cons-nil d t))
compare_trans (cons c s) (cons d t) (cons e u) h k = ground (
  arith,
  compare.cons-cons c d s t,
  compare.cons-cons d e t u,
  compare.cons-cons c e s u,
  compare_trans s t u,
)

module _ {A : Type 0} (key : A → String) where
  abbrev pub IsAscending : List A → Type 0
  IsAscending [] = Unit
  IsAscending (x ∷ xs) = All (λ y. compare (key x) (key y) ≡ Ordering.lt) xs × IsAscending xs

  not_below : (x y : A) → compare (key x) (key y) ≡ Ordering.lt → x ≢ y
  not_below x y h e =
      absurd (ground (arith, h, ap (λ z. compare (key x) (key z)) e, compare_refl (key x)))

  abbrev Same : List A → List A → Type 0
  Same xs ys = (x : A) → In x xs ↔ In x ys

  In-head :
      (x y : A) (xs ys : List A)
      → IsAscending (x ∷ xs)
      → IsAscending (y ∷ ys)
      → Same (x ∷ xs) (y ∷ ys)
      → x ≡ y
  In-head x y xs ys up up' same = elim (In-cases ((same x).0 here)) [
    | inl e ↦ e
    | inr m ↦ elim (In-cases ((same y).1 here)) [
      | inl e ↦ sym e
      | inr m' ↦ absurd (
          not_below x x
            (compare_trans (key x) (key y) (key x)
              (All-at (λ z. compare (key x) (key z) ≡ Ordering.lt) m' up.0)
              (All-at (λ z. compare (key y) (key z) ≡ Ordering.lt) m up'.0))
            refl)
    ]
  ]

  In-rest :
      (x : A) (xs ys : List A)
      → IsAscending (x ∷ xs)
      → ((z : A) → In z (x ∷ xs) → In z (x ∷ ys))
      → (z : A) → In z xs
      → In z ys
  In-rest x xs ys up same z m = elim (In-cases (same z (there m))) [
    | inl e ↦
        absurd (not_below x z (All-at (λ z. compare (key x) (key z) ≡ Ordering.lt) m up.0) (sym e))
    | inr m' ↦ m'
  ]

  -- Two ascending lists with the same elements are equal.
  pub ascending_eq : (xs ys : List A) → IsAscending xs → IsAscending ys → Same xs ys → xs ≡ ys
  ascending_eq [] [] up up' same = refl
  ascending_eq [] (y ∷ ys) up up' same = elim ((same y).1 here) [ ]
  ascending_eq (x ∷ xs) [] up up' same = elim ((same x).0 here) [ ]
  ascending_eq (x ∷ xs) (y ∷ ys) up up' same =
      let e = In-head x y xs ys up up' same in
      let same' : Same (x ∷ xs) (x ∷ ys) = subst (λ z. Same (x ∷ xs) (z ∷ ys)) (sym e) same in
      let up'' : IsAscending (x ∷ ys) = subst (λ z. IsAscending (z ∷ ys)) (sym e) up' in
      let rest = ascending_eq xs ys up.1 up'.1 (λ z.
        (In-rest x xs ys up (λ w. (same' w).0) z, In-rest x ys xs up'' (λ w. (same' w).1) z)) in
      ap (λ z. z ∷ xs) e ∙ ap (λ zs. y ∷ zs) rest
