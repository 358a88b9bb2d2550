-- ===== src/Value/Valid.antt =====
-- value.py, `_validate_snapshot`: how deep a valid snapshot nests, and what holds of its graphs.
use Prim.Native.Nat.{max}
use pyinc.Prelude.{
  ℕ, suc, ◌+◌, ◌≤◌, ◌≡◌, Bool, true, false, Option, none, some, List, [], arith, leb, refl,
}
use pyinc.Value.Snapshot.{
  Scalars, Snapshot, Items, Entries, Fields, none_value, bool, int, float, complex, str, bytes,
  frozen_list, frozen_dict, frozen_set, frozen_record, frozen_adapter_value, frozen_ref,
  frozen_graph, tuple, no_items, item, no_entries, entry, no_fields, field,
}
use pyinc.Value.Encode.{count_items}
use pyinc.Value.RoundTrip.{depth, depth_items, depth_entries, depth_fields}
use pyinc.Value.Classes.{Numbers, Class}
use pyinc.Value.Checks.{Invalid, require, ◌>>◌}
use pyinc.Value.Validate.{
  walk, walk_items, walk_entries, walk_members, walk_fields, walk_nodes, validate_snapshot,
}

pub seq-none : (a b : Option Invalid) → (a >> b) ≡ none → (a ≡ none) × (b ≡ none)
seq-none none b h = (refl, h)
seq-none (some e) b h = absurd cc

pub require-none : (b : Bool) (e : Invalid) → require b e ≡ none → b ≡ true
unfolding require
require-none true e h = refl
require-none false e h = absurd cc

within : (d : ℕ) (e : Invalid) → require (leb d 200) e ≡ none → d ≤ 200
within d e h = ground (arith, require-none (leb d 200) e h)

nested :
    (d : ℕ) (e : Invalid)
    → require (leb d 200) e ≡ none
    → (n : ℕ) → (suc d ≤ 201 → n + suc d ≤ 201)
    → suc n + d ≤ 201
nested d e h n below = let le = within d e h in omega (arith, le, below (omega (arith, le)))

module _ (c : Scalars) (num : Numbers c) where
  mutual
    unfolding walk walk_items walk_entries walk_members walk_fields walk_nodes depth depth_items
        depth_entries depth_fields

    pub walk-depth :
        (x : Snapshot c) (d : ℕ) (size : Option ℕ)
        → walk c num x d size ≡ none
        → depth c x + d ≤ 201
    walk-depth none_value d size h = omega (arith, within d _ h)
    walk-depth (bool b) d size h = omega (arith, within d _ h)
    walk-depth (int n) d size h = omega (arith, within d _ h)
    walk-depth (float f) d size h = omega (arith, within d _ (seq-none _ _ h).0)
    walk-depth (complex r i) d size h = omega (arith, within d _ (seq-none _ _ h).0)
    walk-depth (str t) d size h = omega (arith, within d _ h)
    walk-depth (bytes b) d size h = omega (arith, within d _ h)
    walk-depth (frozen_ref i) d size h = omega (arith, within d _ (seq-none _ _ h).0)
    walk-depth (tuple xs) d size h =
        let (level, rest) = seq-none _ _ h in
        nested d _ level (depth_items c xs) (items-depth xs (suc d) size rest)
    walk-depth (frozen_list xs) d size h =
        let (level, rest) = seq-none _ _ h in
        nested d _ level (depth_items c xs) (items-depth xs (suc d) size rest)
    walk-depth (frozen_dict es) d size h =
        let (level, rest) = seq-none _ _ (seq-none _ _ (seq-none _ _ h).0).0 in
        nested d _ level (depth_entries c es) (entries-depth es (suc d) size [] rest)
    walk-depth (frozen_set kind xs) d size h =
        let (before, rest) = seq-none _ _ (seq-none _ _ (seq-none _ _ h).0).0 in
        nested d _ (seq-none _ _ before).0 (depth_items c xs)
          (members-depth xs (suc d) size [] rest)
    walk-depth (frozen_record name fs) d size h =
        let (before, rest) = seq-none _ _ (seq-none _ _ h).0 in
        nested d _ (seq-none _ _ before).0 (depth_fields c fs) (fields-depth fs (suc d) size rest)
    walk-depth (frozen_adapter_value key x) d size h =
        let (before, rest) = seq-none _ _ h in
        nested d _ (seq-none _ _ before).0 (depth c x) (λ le. walk-depth x (suc d) size rest)
    walk-depth (frozen_graph nodes root) d size h =
        let (start, at_root) = seq-none _ _ (seq-none _ _ h).0 in
        let (before, at_nodes) = seq-none _ _ start in
        let n = some (count_items c nodes) in
        nested d _ (seq-none _ _ before).0 (max (depth_items c nodes) (depth c root)) (λ le.
          omega (arith, walk-depth root (suc d) n at_root, nodes-depth nodes (suc d) n at_nodes le))

    items-depth :
        (xs : Items c) (d : ℕ) (size : Option ℕ)
        → walk_items c num xs d size ≡ none
        → d ≤ 201
        → depth_items c xs + d ≤ 201
    items-depth no_items d size h le = omega (arith, le)
    items-depth (item x xs) d size h le =
        let (first, rest) = seq-none (walk c num x d size) (walk_items c num xs d size) h in
        omega (arith, walk-depth x d size first, items-depth xs d size rest le)

    entries-depth :
        (es : Entries c) (d : ℕ) (size : Option ℕ) (classes : List (Class c num))
        → walk_entries c num es d size classes ≡ none
        → d ≤ 201
        → depth_entries c es + d ≤ 201
    entries-depth no_entries d size classes h le = omega (arith, le)
    entries-depth (entry k v es) d size classes h le =
        let (before, rest) = seq-none _ _ h in
        let (at_key, at_value) = seq-none _ _ (seq-none _ _ before).0 in
        omega (
          arith,
          walk-depth k d size at_key,
          walk-depth v d size at_value,
          entries-depth es d size _ rest le,
        )

    members-depth :
        (xs : Items c) (d : ℕ) (size : Option ℕ) (classes : List (Class c num))
        → walk_members c num xs d size classes ≡ none
        → d ≤ 201
        → depth_items c xs + d ≤ 201
    members-depth no_items d size classes h le = omega (arith, le)
    members-depth (item x xs) d size classes h le =
        let (before, rest) = seq-none _ _ h in
        omega
          (arith, walk-depth x d size (seq-none _ _ before).0, members-depth xs d size _ rest le)

    fields-depth :
        (fs : Fields c) (d : ℕ) (size : Option ℕ)
        → walk_fields c num fs d size ≡ none
        → d ≤ 201
        → depth_fields c fs + d ≤ 201
    fields-depth no_fields d size h le = omega (arith, le)
    fields-depth (field name x fs) d size h le =
        let (before, rest) = seq-none _ _ h in
        omega (arith, walk-depth x d size (seq-none _ _ before).1, fields-depth fs d size rest le)

    nodes-depth :
        (xs : Items c) (d : ℕ) (size : Option ℕ)
        → walk_nodes c num xs d size ≡ none
        → d ≤ 201
        → depth_items c xs + d ≤ 201
    nodes-depth no_items d size h le = omega (arith, le)
    nodes-depth (item x xs) d size h le =
        let (before, rest) = seq-none _ _ h in
        omega (arith, walk-depth x d size (seq-none _ _ before).1, nodes-depth xs d size rest le)

  -- A valid snapshot takes at most 201 nested calls.
  pub validate_snapshot-depth :
      (x : Snapshot c) → validate_snapshot c num x ≡ none → depth c x ≤ 201
  unfolding validate_snapshot
  validate_snapshot-depth x h = omega (arith, walk-depth x 0 none h)
