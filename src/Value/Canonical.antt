-- ===== src/Value/Canonical.antt =====
-- value.py, `_validate_snapshot`: sets and dictionaries have one valid order.
use Prim.Native.Nat.{Ordering}
use Prim.Native.String.{compare}
use text.Mathlib.Text.{◌==◌ as str_eq}
use text.Mathlib.TextEquality.{eq_iff, path_by_compare}
use pyinc.Prelude.{
  ◌≡◌, refl, sym, ◌∙◌, ap, true, false, none, List, [], ◌∷◌, String, arith, All-map, In, ◌↔◌,
  &&-true, Bool, if◌then◌else◌, not, map,
}
use pyinc.Value.Snapshot.{
  Scalars, Snapshot, Items, Entries, frozen_dict, frozen_set, no_items, item, no_entries, entry,
}
use pyinc.Value.Payload.{fingerprint_snapshot}
use pyinc.Value.Classes.{Numbers}
use pyinc.Value.Checks.{has_digest, all_distinct, digest_le, is_sorted}
use pyinc.Value.Validate.{item_digests, key_digests, walk, validate_snapshot}
use pyinc.Value.Valid.{seq-none, require-none}
use pyinc.Value.Ascending.{compare_trans, IsAscending, ascending_eq}

digest_lt : (d e : String) → digest_le d e ≡ true → str_eq e d ≡ false → compare d e ≡ Ordering.lt
unfolding digest_le
digest_lt d e le differ = ordered (compare d e) refl
  where
    ordered : (o : Ordering) → compare d e ≡ o → o ≡ Ordering.lt
    ordered Ordering.lt h = refl
    ordered Ordering.eq h =
        absurd (ground (arith, differ, (eq_iff e d).1 (sym (path_by_compare d e h))))
    ordered Ordering.gt h = absurd (ground (arith, le, h))

other : (b rest : Bool) → not (if b then true else rest) ≡ true → b ≡ false
other b rest h = ground (arith, h)

module _ {A : Type 0} (key : A → String) where
  strict :
      (xs : List A)
      → all_distinct (map key xs) ≡ true
      → is_sorted (map key xs) ≡ true
      → IsAscending key xs
  unfolding all_distinct is_sorted has_digest
  strict [] distinct sorted = tt
  strict (x ∷ []) distinct sorted = (tt, tt)
  strict (x ∷ y ∷ ys) distinct sorted =
      let (fresh, distinct') =
        &&-true (not (has_digest (key x) (key y ∷ map key ys))) (all_distinct (key y ∷ map key ys))
          distinct in
      let (le, sorted') =
        &&-true (digest_le (key x) (key y)) (is_sorted (key y ∷ map key ys)) sorted in
      let lt = digest_lt (key x) (key y) le (other (str_eq (key y) (key x)) _ fresh) in
      let rest = strict (y ∷ ys) distinct' sorted' in
      (
        (
          lt,
          All-map (λ z. compare (key y) (key z) ≡ Ordering.lt)
              (λ z. compare (key x) (key z) ≡ Ordering.lt) ys
              (λ z. compare_trans (key x) (key y) (key z) lt) rest.0,
        ),
        rest,
      )

module _ (c : Scalars) (num : Numbers c) where
  abbrev digest : Snapshot c → String
  digest = fingerprint_snapshot c num.sha256

  abbrev pub members : Items c → List (Snapshot c)
  members no_items = []
  members (item x xs) = x ∷ members xs

  abbrev pub pairs : Entries c → List (Snapshot c × Snapshot c)
  pairs no_entries = []
  pairs (entry k v es) = (k, v) ∷ pairs es

  abbrev items_of : List (Snapshot c) → Items c
  items_of [] = no_items
  items_of (x ∷ xs) = item x (items_of xs)

  abbrev entries_of : List (Snapshot c × Snapshot c) → Entries c
  entries_of [] = no_entries
  entries_of ((k, v) ∷ es) = entry k v (entries_of es)

  items_of-members : (xs : Items c) → items_of (members xs) ≡ xs
  items_of-members no_items = refl
  items_of-members (item x xs) = ap (item x) (items_of-members xs)

  entries_of-pairs : (es : Entries c) → entries_of (pairs es) ≡ es
  entries_of-pairs no_entries = refl
  entries_of-pairs (entry k v es) = ap (entry k v) (entries_of-pairs es)

  item_digests-members : (xs : Items c) → item_digests c num xs ≡ map digest (members xs)
  unfolding item_digests
  item_digests-members no_items = refl
  item_digests-members (item x xs) = ap (λ ds. digest x ∷ ds) (item_digests-members xs)

  key_digests-pairs : (es : Entries c) → key_digests c num es ≡ map (λ e. digest e.0) (pairs es)
  unfolding key_digests
  key_digests-pairs no_entries = refl
  key_digests-pairs (entry k v es) = ap (λ ds. digest k ∷ ds) (key_digests-pairs es)

  set-IsAscending :
      (kind : c.Text) (xs : Items c)
      → validate_snapshot c num (frozen_set kind xs) ≡ none
      → IsAscending digest (members xs)
  unfolding validate_snapshot walk
  set-IsAscending kind xs h =
      let (before, sorted) = seq-none _ _ h in
      strict digest (members xs)
        (sym (ap all_distinct (item_digests-members xs)) ∙ require-none _ _ (seq-none _ _ before).1)
        (sym (ap is_sorted (item_digests-members xs)) ∙ require-none _ _ sorted)

  dict-IsAscending :
      (es : Entries c)
      → validate_snapshot c num (frozen_dict es) ≡ none
      → IsAscending (λ e. digest e.0) (pairs es)
  unfolding validate_snapshot walk
  dict-IsAscending es h =
      let (before, sorted) = seq-none _ _ h in
      strict (λ e. digest e.0) (pairs es)
        (sym (ap all_distinct (key_digests-pairs es)) ∙ require-none _ _ (seq-none _ _ before).1)
        (sym (ap is_sorted (key_digests-pairs es)) ∙ require-none _ _ sorted)

  -- Two valid sets of one kind with the same members are one snapshot, with the members in the same
  -- order.
  pub frozen_set_unique :
      (kind : c.Text) (xs ys : Items c)
      → validate_snapshot c num (frozen_set kind xs) ≡ none
      → validate_snapshot c num (frozen_set kind ys) ≡ none
      → ((x : Snapshot c) → In x (members xs) ↔ In x (members ys))
      → frozen_set kind xs ≡ frozen_set kind ys
  frozen_set_unique kind xs ys valid valid' same =
      let e =
        ascending_eq digest (members xs) (members ys) (set-IsAscending kind xs valid)
          (set-IsAscending kind ys valid') same in
      ap (frozen_set kind) (sym (items_of-members xs) ∙ ap items_of e ∙ items_of-members ys)

  -- Two valid dictionaries with the same entries are one snapshot, with the entries in the same
  -- order.
  pub frozen_dict_unique :
      (es fs : Entries c)
      → validate_snapshot c num (frozen_dict es) ≡ none
      → validate_snapshot c num (frozen_dict fs) ≡ none
      → ((e : Snapshot c × Snapshot c) → In e (pairs es) ↔ In e (pairs fs))
      → frozen_dict es ≡ frozen_dict fs
  frozen_dict_unique es fs valid valid' same =
      let e =
        ascending_eq (λ x. digest x.0) (pairs es) (pairs fs) (dict-IsAscending es valid)
          (dict-IsAscending fs valid') same in
      ap frozen_dict (sym (entries_of-pairs es) ∙ ap entries_of e ∙ entries_of-pairs fs)
