-- ===== src/Assoc.antt =====
-- Python's `dict`, as an association list over keys with an equivalence test.
use pyinc.Prelude.{
  ◌≡◌, refl, ◌⊎◌, false, Bool, true, Option, none, some, List, [], ◌∷◌, arith, String,
  if◌then◌else◌,
}
use text.Mathlib.Text.{◌==◌ as str_eq}
use text.Mathlib.TextEquality.{eq_iff}

-- `==` of a key type, which need not look at every field.
pub record KeyEq {ℓ} (K : Type ℓ) : Type ℓ where
  pub same : K → K → Bool
  pub same_refl : (a : K) → same a a ≡ true
  pub same_sym : (a b : K) → same a b ≡ true → same b a ≡ true
  pub same_trans : (a b c : K) → same a b ≡ true → same b c ≡ true → same a c ≡ true

-- What compares alike with `a` compares alike with `b`.
pub same-cong {ℓ} :
    {K : Type ℓ} (e : KeyEq K) (a b c : K) → e.same a b ≡ true → e.same a c ≡ e.same b c
same-cong e a b c h = ground (arith, e.same_trans b a c (e.same_sym a b h), e.same_trans a b c h)

module _ {ℓ κ} {K : Type ℓ} {V : Type κ} (e : KeyEq K) where
  unfoldable pub find : K → List (K × V) → Option V
  find k [] = none
  find k ((j, v) ∷ m) = if e.same j k then some v else find k m

  unfoldable pub put : K → V → List (K × V) → List (K × V)
  put k v [] = (k, v) ∷ []
  put k v ((j, w) ∷ m) = if e.same j k then (j, v) ∷ m else (j, w) ∷ put k v m

  unfoldable pub remove : K → List (K × V) → List (K × V)
  remove k [] = []
  remove k ((j, v) ∷ m) = let rest = remove k m in if e.same j k then rest else (j, v) ∷ rest

  pub find-empty : (k : K) (v : V) → ¬ (find k [] ≡ some v)
  unfolding find
  find-empty k v h = cc

  pub find-put :
      (k j : K) (v : V) (m : List (K × V))
      → find j (put k v m) ≡ (if e.same k j then some v else find j m)
  unfolding find put
  find-put k j v [] = refl
  find-put k j v ((i, w) ∷ m) = ground (
    arith,
    same-cong e i k j,
    same-cong e k i j,
    e.same_sym k j,
    e.same_trans i j k,
    find-put k j v m,
  )

  pub find-remove :
      (k j : K) (m : List (K × V)) → find j (remove k m) ≡ (if e.same k j then none else find j m)
  unfolding find remove
  find-remove k j [] = ground arith
  find-remove k j ((i, w) ∷ m) = ground (
    arith,
    same-cong e i k j,
    same-cong e k i j,
    e.same_sym k j,
    e.same_trans i j k,
    find-remove k j m,
  )

  pub find-cong : (k j : K) (m : List (K × V)) → e.same k j ≡ true → find k m ≡ find j m
  unfolding find
  find-cong k j [] h = refl
  find-cong k j ((i, w) ∷ m) h =
      ground (arith, e.same_trans i k j, e.same_trans i j k, e.same_sym k j, find-cong k j m)

  -- What is found after a `put`: the new value, or an old one under another key.
  pub find-put_cases :
      (k j : K) (v w : V) (m : List (K × V))
      → find j (put k v m) ≡ some w
      → ((e.same k j ≡ true) × (v ≡ w)) ⊎ ((e.same k j ≡ false) × (find j m ≡ some w))
  find-put_cases k j v w m h = ground (arith, find-put k j v m)

  pub find-put_self : (k : K) (v : V) (m : List (K × V)) → find k (put k v m) ≡ some v
  find-put_self k v m = ground (arith, find-put k k v m, e.same_refl k)

  pub find-put_other :
      (k j : K) (v : V) (m : List (K × V)) → e.same k j ≡ false → find j (put k v m) ≡ find j m
  find-put_other k j v m h = ground (arith, find-put k j v m)

-- Text keys.
pub string_refl : (a : String) → str_eq a a ≡ true
string_refl a = (eq_iff a a).1 refl

pub string_sym : (a b : String) → str_eq a b ≡ true → str_eq b a ≡ true
string_sym a b h = ground (arith, eq_iff a b, eq_iff b a)

pub string_trans : (a b c : String) → str_eq a b ≡ true → str_eq b c ≡ true → str_eq a c ≡ true
string_trans a b c h k = ground (arith, eq_iff a b, eq_iff b c, eq_iff a c)

abbrev pub string_keys : KeyEq String
string_keys = record {
  same = str_eq;
  same_refl = string_refl;
  same_sym = string_sym;
  same_trans = string_trans;
}
