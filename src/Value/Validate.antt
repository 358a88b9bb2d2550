-- ===== src/Value/Validate.antt =====
-- value.py, `_validate_snapshot`. The wrappers' fields have their types and are no object cycles by the
-- types here, and a text is one that UTF-8 encodes.

use pyinc.Prelude.{
  ℕ, suc, Bool, true, false, not, ◌&&◌, Option, none, some, List, [], ◌∷◌, String, if◌then◌else◌,
  leb, ltb,
}
use pyinc.Value.Snapshot.{
  Scalars, Snapshot, Items, Entries, Fields, float, complex, frozen_list, frozen_dict, frozen_set,
  frozen_record, frozen_adapter_value, frozen_ref, frozen_graph, tuple, no_items, item, no_entries,
  entry, no_fields, field,
}
use pyinc.Value.Encode.{count_items}
use pyinc.Value.Payload.{fingerprint_snapshot}
use pyinc.Value.Classes.{Numbers, Class, class_equal, thaw_equivalence_key}
use pyinc.Value.Checks.{
  Invalid, too_nested, bad_nan, bad_complex_nan, ref_outside, keys_collapse, duplicate_keys,
  keys_unordered, set_kind, members_collapse, duplicate_members, members_unordered, type_name,
  field_name, duplicate_fields, adapter_key, no_nodes, node_shell, require, ◌>>◌, max_depth,
  all_distinct, is_sorted, check_reachable, in_graph, is_named, is_set_kind, is_shell,
  distinct_names,
}

module _ (c : Scalars) (num : Numbers c) where
  -- `key_class in key_classes`
  unfoldable pub has_class : Class c num → List (Class c num) → Bool
  has_class a [] = false
  has_class a (b ∷ bs) = if class_equal c num b a then true else has_class a bs

  -- `encoded_digest` of the keys, and of the members
  unfoldable pub key_digests : Entries c → List String
  key_digests no_entries = []
  key_digests (entry k v es) = fingerprint_snapshot c num.sha256 k ∷ key_digests es

  unfoldable pub item_digests : Items c → List String
  item_digests no_items = []
  item_digests (item x xs) = fingerprint_snapshot c num.sha256 x ∷ item_digests xs

  -- A NaN has the canonical bits.
  unfoldable pub is_canonical : c.Float → Bool
  is_canonical f = not (num.is_nan f && not (num.has_nan_bits f))

  unfoldable mutual
    unfolding require in_graph is_canonical is_named is_set_kind is_shell distinct_names
        all_distinct is_sorted has_class thaw_equivalence_key check_reachable

    -- `walk`, and its loops over items, entries, members, fields and nodes
    pub walk : Snapshot c → ℕ → Option ℕ → Option Invalid
    walk (float f) d size = require (leb d max_depth) too_nested >> require (is_canonical f) bad_nan
    walk (complex r i) d size =
        require (leb d max_depth) too_nested
        >> require (is_canonical r && is_canonical i) bad_complex_nan
    walk (frozen_ref i) d size =
        require (leb d max_depth) too_nested >> require (in_graph size i) ref_outside
    walk (tuple xs) d size = require (leb d max_depth) too_nested >> walk_items xs (suc d) size
    walk (frozen_list xs) d size =
        require (leb d max_depth) too_nested >> walk_items xs (suc d) size
    walk (frozen_dict es) d size =
        require (leb d max_depth) too_nested
        >> walk_entries es (suc d) size []
        >> require (all_distinct (key_digests es)) duplicate_keys
        >> require (is_sorted (key_digests es)) keys_unordered
    walk (frozen_set kind xs) d size =
        require (leb d max_depth) too_nested
        >> require (is_set_kind c kind) set_kind
        >> walk_members xs (suc d) size []
        >> require (all_distinct (item_digests xs)) duplicate_members
        >> require (is_sorted (item_digests xs)) members_unordered
    walk (frozen_record name fs) d size =
        require (leb d max_depth) too_nested
        >> require (is_named c name) type_name
        >> walk_fields fs (suc d) size
        >> require (distinct_names c fs) duplicate_fields
    walk (frozen_adapter_value key x) d size =
        require (leb d max_depth) too_nested
        >> require (is_named c key) adapter_key
        >> walk x (suc d) size
    walk (frozen_graph nodes root) d size =
        require (leb d max_depth) too_nested
        >> require (ltb 0 (count_items c nodes)) no_nodes
        >> walk_nodes nodes (suc d) (some (count_items c nodes))
        >> walk root (suc d) (some (count_items c nodes))
        >> check_reachable c nodes root
    walk _ d size = require (leb d max_depth) too_nested

    pub walk_items : Items c → ℕ → Option ℕ → Option Invalid
    walk_items no_items d size = none
    walk_items (item x xs) d size = walk x d size >> walk_items xs d size

    pub walk_entries : Entries c → ℕ → Option ℕ → List (Class c num) → Option Invalid
    walk_entries no_entries d size classes = none
    walk_entries (entry k v es) d size classes =
        walk k d size
        >> walk v d size
        >> require (not (has_class (thaw_equivalence_key c num k) classes)) keys_collapse
        >> walk_entries es d size (thaw_equivalence_key c num k ∷ classes)

    pub walk_members : Items c → ℕ → Option ℕ → List (Class c num) → Option Invalid
    walk_members no_items d size classes = none
    walk_members (item x xs) d size classes =
        walk x d size
        >> require (not (has_class (thaw_equivalence_key c num x) classes)) members_collapse
        >> walk_members xs d size (thaw_equivalence_key c num x ∷ classes)

    pub walk_fields : Fields c → ℕ → Option ℕ → Option Invalid
    walk_fields no_fields d size = none
    walk_fields (field name x fs) d size =
        require (is_named c name) field_name >> walk x d size >> walk_fields fs d size

    pub walk_nodes : Items c → ℕ → Option ℕ → Option Invalid
    walk_nodes no_items d size = none
    walk_nodes (item x xs) d size =
        require (is_shell c x) node_shell >> walk x d size >> walk_nodes xs d size

  unfoldable pub validate_snapshot : Snapshot c → Option Invalid
  unfolding walk
  validate_snapshot x = walk x 0 none
