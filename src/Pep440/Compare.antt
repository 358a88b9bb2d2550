-- ===== src/Pep440/Compare.antt =====
-- The order behind `compare_versions`: releases compared as if they went on with zeros.
use Prim.Native.Nat.{Ordering, compare, lt, eq, gt, max}
use pyinc.Prelude.{
  ℕ, zero, suc, ◌+◌, ◌≡◌, ◌≢◌, refl, sym, ◌∙◌, ap, ap₂, arith, some, List, [], ◌∷◌, ◌++◌,
  Option-cases, Bool-cases, &&-true, ltb, ◌==◌, ◌&&◌, ◌⊎◌, inl, inr, length, take, replicate,
  get_elem?,
}
use pyinc.Pep440.Order.{
  Preorder, swap, then, then_trans, then_cong, nat_order, pair_order, on_key, compare_list,
  compare_pair, list_refl,
}
use pyinc.Pep440.Version.{
  Version, SuffixKey, trim_end, trim_trailing_zeros, suffix_key, suffix_order, pad,
  compare_versions,
}

unfoldable pub compare_padded : List ℕ → List ℕ → Ordering
compare_padded [] [] = eq
compare_padded [] (y ∷ ys) = then (compare 0 y) (compare_padded [] ys)
compare_padded (x ∷ xs) [] = then (compare x 0) (compare_padded xs [])
compare_padded (x ∷ xs) (y ∷ ys) = then (compare x y) (compare_padded xs ys)

pub padded_refl : (xs : List ℕ) → compare_padded xs xs ≡ eq
unfolding compare_padded
padded_refl [] = refl
padded_refl (x ∷ xs) = ground (arith, padded_refl xs)

pub padded_swap : (xs ys : List ℕ) → compare_padded ys xs ≡ swap (compare_padded xs ys)
unfolding compare_padded
padded_swap [] [] = refl
padded_swap [] (y ∷ ys) = ground (arith, padded_swap [] ys)
padded_swap (x ∷ xs) [] = ground (arith, padded_swap xs [])
padded_swap (x ∷ xs) (y ∷ ys) = ground (arith, padded_swap xs ys)

pub padded_trans :
    (xs ys zs : List ℕ)
    → compare_padded xs ys ≡ lt
    → compare_padded ys zs ≡ lt
    → compare_padded xs zs ≡ lt
unfolding compare_padded
padded_trans [] [] zs h k = absurd cc
padded_trans [] (y ∷ ys) [] h k = absurd ground (arith, padded_swap [] ys)
padded_trans [] (y ∷ ys) (z ∷ zs) h k = then_trans nat_order 0 y z _ _ _ (padded_trans [] ys zs) h k
padded_trans (x ∷ xs) [] [] h k = absurd cc
padded_trans (x ∷ xs) [] (z ∷ zs) h k = then_trans nat_order x 0 z _ _ _ (padded_trans xs [] zs) h k
padded_trans (x ∷ xs) (y ∷ ys) [] h k = then_trans nat_order x y 0 _ _ _ (padded_trans xs ys []) h k
padded_trans (x ∷ xs) (y ∷ ys) (z ∷ zs) h k =
    then_trans nat_order x y z _ _ _ (padded_trans xs ys zs) h k

pub padded_cong :
    (xs ys zs : List ℕ) → compare_padded xs ys ≡ eq → compare_padded xs zs ≡ compare_padded ys zs
unfolding compare_padded
padded_cong [] [] zs h = refl
padded_cong [] (y ∷ ys) [] h = then_cong nat_order 0 y 0 _ eq _ (padded_cong [] ys []) h
padded_cong [] (y ∷ ys) (z ∷ zs) h = then_cong nat_order 0 y z _ _ _ (padded_cong [] ys zs) h
padded_cong (x ∷ xs) [] [] h = h
padded_cong (x ∷ xs) [] (z ∷ zs) h = then_cong nat_order x 0 z _ _ _ (padded_cong xs [] zs) h
padded_cong (x ∷ xs) (y ∷ ys) [] h = then_cong nat_order x y 0 _ _ _ (padded_cong xs ys []) h
padded_cong (x ∷ xs) (y ∷ ys) (z ∷ zs) h = then_cong nat_order x y z _ _ _ (padded_cong xs ys zs) h

abbrev pub padded_order : Preorder (List ℕ)
padded_order = record {
  cmp = compare_padded;
  cmp_refl = padded_refl;
  cmp_swap = padded_swap;
  cmp_trans = padded_trans;
  cmp_cong = padded_cong;
}

-- Filled up to one length, releases compare as lists.
compare_list-zeros :
    (xs ys : List ℕ) (a b : ℕ)
    → length xs + a ≡ length ys + b
    → compare_list nat_order (xs ++ replicate a 0) (ys ++ replicate b 0) ≡ compare_padded xs ys
unfolding compare_list compare_padded
compare_list-zeros [] [] a b h =
    ap (λ n. compare_list nat_order (replicate a 0) (replicate n 0)) (omega arith)
    ∙ list_refl nat_order (replicate a 0)
compare_list-zeros [] (y ∷ ys) zero b h = absurd omega arith
compare_list-zeros [] (y ∷ ys) (suc a) b h =
    ap (then (compare 0 y)) (compare_list-zeros [] ys a b (omega arith))
compare_list-zeros (x ∷ xs) [] a zero h = absurd omega arith
compare_list-zeros (x ∷ xs) [] a (suc b) h =
    ap (then (compare x 0)) (compare_list-zeros xs [] a b (omega arith))
compare_list-zeros (x ∷ xs) (y ∷ ys) a b h =
    ap (then (compare x y)) (compare_list-zeros xs ys a b (omega arith))

pub padded-zeros : (xs : List ℕ) (n : ℕ) → compare_padded (xs ++ replicate n 0) xs ≡ eq
unfolding compare_padded
padded-zeros [] zero = refl
padded-zeros [] (suc n) = padded-zeros [] n
padded-zeros (x ∷ xs) n = ground (arith, padded-zeros xs n)

-- A zero more at the end.
padded-take :
    (xs : List ℕ) (n : ℕ) (last : ℕ)
    → get_elem? xs n ≡ some last
    → last ≡ 0
    → compare_padded (take n xs) (take (suc n) xs) ≡ eq
unfolding compare_padded
padded-take [] n last h e = absurd cc
padded-take (x ∷ xs) zero last h e = ground (arith)
padded-take (x ∷ xs) (suc n) last h e = ground (arith, padded-take xs n last h e)

-- The new end is the old one, or the step dropped a zero.
trim_end-cases :
    (n : ℕ) (xs : List ℕ)
    → (trim_end (suc n) xs ≡ suc n)
      ⊎ ((trim_end (suc n) xs ≡ trim_end n xs) × (get_elem? xs n ≡ some 0))
unfolding trim_end
trim_end-cases n xs = elim (Option-cases (get_elem? xs n)) [
  | inl e ↦ inl (rw (e, trim_end) refl)
  | inr (last, e) ↦ elim (Bool-cases (ltb 0 n && last == 0)) [
    | inl k ↦
        inr
          (rw (e, k, trim_end) refl, e ∙ ap some (ground (arith, &&-true (ltb 0 n) (last == 0) k)))
    | inr k ↦ inl (rw (e, k, trim_end) refl)
  ]
]

trim_end-zero : (xs : List ℕ) → trim_end 0 xs ≡ 0
unfolding trim_end
trim_end-zero xs = refl

padded-trim_end : (n : ℕ) (xs : List ℕ) → compare_padded (take (trim_end n xs) xs) (take n xs) ≡ eq
padded-trim_end zero xs =
    ap (λ e. compare_padded (take e xs) []) (trim_end-zero xs) ∙ padded_refl []
padded-trim_end (suc n) xs = elim (trim_end-cases n xs) [
  | inl e ↦ ap (λ k. compare_padded (take k xs) (take (suc n) xs)) e ∙ padded_refl (take (suc n) xs)
  | inr (e, z) ↦
      ap (λ k. compare_padded (take k xs) (take (suc n) xs)) e
      ∙ padded_cong (take (trim_end n xs) xs) (take n xs) (take (suc n) xs) (padded-trim_end n xs)
      ∙ padded-take xs n 0 z refl
]

take-all : (xs : List ℕ) → take (length xs) xs ≡ xs
take-all [] = refl
take-all (x ∷ xs) = ap (λ ys. x ∷ ys) (take-all xs)

padded-trim : (xs : List ℕ) → compare_padded (trim_trailing_zeros xs) xs ≡ eq
unfolding trim_trailing_zeros
padded-trim xs =
    ap (compare_padded (trim_trailing_zeros xs)) (sym (take-all xs))
    ∙ padded-trim_end (length xs) xs

-- Releases whose padded comparison is `eq` can stand for each other, on either side.
padded_both :
    (xs xs' ys ys' : List ℕ)
    → compare_padded xs xs' ≡ eq
    → compare_padded ys ys' ≡ eq
    → compare_padded xs ys ≡ compare_padded xs' ys'
padded_both xs xs' ys ys' h k =
    padded_cong xs xs' ys h
    ∙ padded_swap ys xs'
    ∙ ap swap (padded_cong ys ys' xs' k)
    ∙ sym (padded_swap ys' xs')

compare_list-pad :
    (xs ys : List ℕ)
    → compare_list nat_order
        (pad (max (length xs) (length ys)) xs)
        (pad (max (length xs) (length ys)) ys)
      ≡ compare_padded xs ys
unfolding pad
compare_list-pad xs ys = compare_list-zeros xs ys _ _ (omega arith)

-- The key that a version is compared by, releases as they are.
unfoldable pub full_key : Version → ℕ × (List ℕ × SuffixKey)
full_key v = (v.epoch, (v.release, suffix_key v))

-- Versions in the order of `compare_versions`.
abbrev pub version_order : Preorder Version
version_order = on_key full_key (pair_order nat_order (pair_order padded_order suffix_order))

-- For any two versions, `compare_versions` is the comparison of epoch, release and suffixes by a total
-- preorder in which releases go on with zeros: trimming and filling up make no difference.
pub compare_versions-order : (v w : Version) → compare_versions v w ≡ version_order.cmp v w
unfolding compare_versions compare_pair full_key
compare_versions-order v w =
    ap
      (λ o.
        then (compare v.epoch w.epoch) (then o (suffix_order.cmp (suffix_key v) (suffix_key w))))
      (compare_list-pad (trim_trailing_zeros v.release) (trim_trailing_zeros w.release)
        ∙ padded_both (trim_trailing_zeros v.release) v.release (trim_trailing_zeros w.release)
            w.release (padded-trim v.release) (padded-trim w.release))

-- For any two versions, `compare_versions` of them the other way round is its opposite.
pub compare_versions-swap : (v w : Version) → compare_versions w v ≡ swap (compare_versions v w)
compare_versions-swap v w =
    compare_versions-order w v
    ∙ version_order.cmp_swap v w
    ∙ ap swap (sym (compare_versions-order v w))

chain {ℓ} :
    {A : Type ℓ} (p : Preorder A) (a b c : A)
    → p.cmp a b ≢ gt
    → p.cmp b c ≢ gt
    → p.cmp a c ≡ then (p.cmp a b) (p.cmp b c)
chain p a b c h k =
    ground
      (arith, p.cmp_trans a b c, p.cmp_cong a b c, p.cmp_cong b c a, p.cmp_swap a b, p.cmp_swap a c)

-- Where u is not above v and v is not above w, u is not above w, and it is below w exactly where one of
-- the two steps is strict: versions that compare as 0 can stand for each other.
pub compare_versions_trans :
    (u v w : Version)
    → compare_versions u v ≢ gt
    → compare_versions v w ≢ gt
    → compare_versions u w ≡ then (compare_versions u v) (compare_versions v w)
compare_versions_trans u v w h k =
    compare_versions-order u w
    ∙ chain version_order u v w (λ e. h (compare_versions-order u v ∙ e))
        (λ e. k (compare_versions-order v w ∙ e))
    ∙ sym (ap₂ then (compare_versions-order u v) (compare_versions-order v w))
