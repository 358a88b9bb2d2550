-- ===== src/Pep440/Order.antt =====
-- Comparisons with the laws of a total preorder, and those of tuples made of them, as Python compares
-- tuples: by the first place where they differ.
use Prim.Native.Nat.{Ordering, compare, lt, eq, gt}
use Prim.Native.Char.{code}
use Prim.Native.String.{String, [], ◌∷◌}
use pyinc.Prelude.{ℕ, ◌≡◌, refl, arith, List, [], ◌∷◌}

abbrev pub swap : Ordering → Ordering
swap lt = gt
swap eq = eq
swap gt = lt

abbrev pub then : Ordering → Ordering → Ordering
then lt o = lt
then eq o = o
then gt o = gt

-- Values that compare equal compare alike with every other value.
pub record Preorder {ℓ} (A : Type ℓ) : Type ℓ where
  pub cmp : A → A → Ordering
  pub cmp_refl : (a : A) → cmp a a ≡ eq
  pub cmp_swap : (a b : A) → cmp b a ≡ swap (cmp a b)
  pub cmp_trans : (a b c : A) → cmp a b ≡ lt → cmp b c ≡ lt → cmp a c ≡ lt
  pub cmp_cong : (a b c : A) → cmp a b ≡ eq → cmp a c ≡ cmp b c

-- The lexicographic step, with the comparisons of the tails given.
pub then_trans {ℓ} :
    {A : Type ℓ} (p : Preorder A) (a b c : A) (ab bc ac : Ordering)
    → (ab ≡ lt → bc ≡ lt → ac ≡ lt)
    → then (p.cmp a b) ab ≡ lt
    → then (p.cmp b c) bc ≡ lt
    → then (p.cmp a c) ac ≡ lt
then_trans p a b c ab bc ac tails h k =
    ground
      (arith, p.cmp_trans a b c, p.cmp_cong a b c, p.cmp_cong b c a, p.cmp_swap a b, p.cmp_swap a c)

pub then_cong {ℓ} :
    {A : Type ℓ} (p : Preorder A) (a b c : A) (ab ac bc : Ordering)
    → (ab ≡ eq → ac ≡ bc)
    → then (p.cmp a b) ab ≡ eq
    → then (p.cmp a c) ac ≡ then (p.cmp b c) bc
then_cong p a b c ab ac bc tails h = ground (arith, p.cmp_cong a b c)

pub nat_refl : (a : ℕ) → compare a a ≡ eq
nat_refl a = ground arith

pub nat_swap : (a b : ℕ) → compare b a ≡ swap (compare a b)
nat_swap a b = ground arith

pub nat_trans : (a b c : ℕ) → compare a b ≡ lt → compare b c ≡ lt → compare a c ≡ lt
nat_trans a b c h k = ground arith

pub nat_cong : (a b c : ℕ) → compare a b ≡ eq → compare a c ≡ compare b c
nat_cong a b c h = ground arith

abbrev pub nat_order : Preorder ℕ
nat_order = record {
  cmp = compare;
  cmp_refl = nat_refl;
  cmp_swap = nat_swap;
  cmp_trans = nat_trans;
  cmp_cong = nat_cong;
}

-- Texts, by their code points.
unfoldable pub compare_text : String → String → Ordering
compare_text [] [] = eq
compare_text [] (d ∷ t) = lt
compare_text (c ∷ s) [] = gt
compare_text (c ∷ s) (d ∷ t) = then (compare (code c) (code d)) (compare_text s t)

pub text_refl : (s : String) → compare_text s s ≡ eq
unfolding compare_text
text_refl [] = refl
text_refl (c ∷ s) = ground (arith, text_refl s)

pub text_swap : (s t : String) → compare_text t s ≡ swap (compare_text s t)
unfolding compare_text
text_swap [] [] = refl
text_swap [] (d ∷ t) = refl
text_swap (c ∷ s) [] = refl
text_swap (c ∷ s) (d ∷ t) = ground (arith, text_swap s t)

pub text_trans :
    (s t u : String) → compare_text s t ≡ lt → compare_text t u ≡ lt → compare_text s u ≡ lt
unfolding compare_text
text_trans [] [] u h k = absurd cc
text_trans [] (d ∷ t) [] h k = absurd cc
text_trans [] (d ∷ t) (e ∷ u) h k = refl
text_trans (c ∷ s) [] u h k = absurd cc
text_trans (c ∷ s) (d ∷ t) [] h k = absurd cc
text_trans (c ∷ s) (d ∷ t) (e ∷ u) h k =
    then_trans nat_order (code c) (code d) (code e) (compare_text s t) (compare_text t u)
      (compare_text s u) (text_trans s t u) h k

pub text_cong : (s t u : String) → compare_text s t ≡ eq → compare_text s u ≡ compare_text t u
unfolding compare_text
text_cong [] [] u h = refl
text_cong [] (d ∷ t) u h = absurd cc
text_cong (c ∷ s) [] u h = absurd cc
text_cong (c ∷ s) (d ∷ t) [] h = refl
text_cong (c ∷ s) (d ∷ t) (e ∷ u) h =
    then_cong nat_order (code c) (code d) (code e) (compare_text s t) (compare_text s u)
      (compare_text t u) (text_cong s t u) h

abbrev pub text_order : Preorder String
text_order = record {
  cmp = compare_text;
  cmp_refl = text_refl;
  cmp_swap = text_swap;
  cmp_trans = text_trans;
  cmp_cong = text_cong;
}

module _ {ℓ κ} {A : Type ℓ} {B : Type κ} (p : Preorder A) (q : Preorder B) where
  unfoldable pub compare_pair : A × B → A × B → Ordering
  compare_pair (a, b) (c, d) = then (p.cmp a c) (q.cmp b d)

  pub pair_refl : (x : A × B) → compare_pair x x ≡ eq
  unfolding compare_pair
  pair_refl (a, b) = ground (arith, p.cmp_refl a, q.cmp_refl b)

  pub pair_swap : (x y : A × B) → compare_pair y x ≡ swap (compare_pair x y)
  unfolding compare_pair
  pair_swap (a, b) (c, d) = ground (arith, p.cmp_swap a c, q.cmp_swap b d)

  pub pair_trans :
      (x y z : A × B) → compare_pair x y ≡ lt → compare_pair y z ≡ lt → compare_pair x z ≡ lt
  unfolding compare_pair
  pair_trans (a, b) (c, d) (e, f) h k =
      then_trans p a c e (q.cmp b d) (q.cmp d f) (q.cmp b f) (q.cmp_trans b d f) h k

  pub pair_cong : (x y z : A × B) → compare_pair x y ≡ eq → compare_pair x z ≡ compare_pair y z
  unfolding compare_pair
  pair_cong (a, b) (c, d) (e, f) h =
      then_cong p a c e (q.cmp b d) (q.cmp b f) (q.cmp d f) (q.cmp_cong b d f) h

  abbrev pub pair_order : Preorder (A × B)
  pair_order = record {
    cmp = compare_pair;
    cmp_refl = pair_refl;
    cmp_swap = pair_swap;
    cmp_trans = pair_trans;
    cmp_cong = pair_cong;
  }

module _ {ℓ} {A : Type ℓ} (p : Preorder A) where
  unfoldable pub compare_list : List A → List A → Ordering
  compare_list [] [] = eq
  compare_list [] (y ∷ ys) = lt
  compare_list (x ∷ xs) [] = gt
  compare_list (x ∷ xs) (y ∷ ys) = then (p.cmp x y) (compare_list xs ys)

  pub list_refl : (xs : List A) → compare_list xs xs ≡ eq
  unfolding compare_list
  list_refl [] = refl
  list_refl (x ∷ xs) = ground (arith, p.cmp_refl x, list_refl xs)

  pub list_swap : (xs ys : List A) → compare_list ys xs ≡ swap (compare_list xs ys)
  unfolding compare_list
  list_swap [] [] = refl
  list_swap [] (y ∷ ys) = refl
  list_swap (x ∷ xs) [] = refl
  list_swap (x ∷ xs) (y ∷ ys) = ground (arith, p.cmp_swap x y, list_swap xs ys)

  pub list_trans :
      (xs ys zs : List A)
      → compare_list xs ys ≡ lt
      → compare_list ys zs ≡ lt
      → compare_list xs zs ≡ lt
  unfolding compare_list
  list_trans [] [] zs h k = absurd cc
  list_trans [] (y ∷ ys) [] h k = absurd cc
  list_trans [] (y ∷ ys) (z ∷ zs) h k = refl
  list_trans (x ∷ xs) [] zs h k = absurd cc
  list_trans (x ∷ xs) (y ∷ ys) [] h k = absurd cc
  list_trans (x ∷ xs) (y ∷ ys) (z ∷ zs) h k =
      then_trans p x y z (compare_list xs ys) (compare_list ys zs) (compare_list xs zs)
        (list_trans xs ys zs) h k

  pub list_cong :
      (xs ys zs : List A) → compare_list xs ys ≡ eq → compare_list xs zs ≡ compare_list ys zs
  unfolding compare_list
  list_cong [] [] zs h = refl
  list_cong [] (y ∷ ys) zs h = absurd cc
  list_cong (x ∷ xs) [] zs h = absurd cc
  list_cong (x ∷ xs) (y ∷ ys) [] h = refl
  list_cong (x ∷ xs) (y ∷ ys) (z ∷ zs) h =
      then_cong p x y z (compare_list xs ys) (compare_list xs zs) (compare_list ys zs)
        (list_cong xs ys zs) h

  abbrev pub list_order : Preorder (List A)
  list_order = record {
    cmp = compare_list;
    cmp_refl = list_refl;
    cmp_swap = list_swap;
    cmp_trans = list_trans;
    cmp_cong = list_cong;
  }

-- An order pulled back along a key.
abbrev pub on_key {ℓ κ} : {A : Type ℓ} {B : Type κ} → (A → B) → Preorder B → Preorder A
on_key key p = record {
  cmp = λ a b. p.cmp (key a) (key b);
  cmp_refl = λ a. p.cmp_refl (key a);
  cmp_swap = λ a b. p.cmp_swap (key a) (key b);
  cmp_trans = λ a b c. p.cmp_trans (key a) (key b) (key c);
  cmp_cong = λ a b c. p.cmp_cong (key a) (key b) (key c);
}
