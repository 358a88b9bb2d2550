-- ===== src/Value/Checks.antt =====
-- value.py, `_validate_snapshot` and `_snapshot_refs`: the single checks.
use Prim.Native.String.{compare}
use Prim.Native.Nat.{Ordering}
use text.Mathlib.Text.{◌==◌ as str_eq}
use pyinc.Prelude.{
  ℕ, zero, suc, ◌+◌, Bool, true, false, not, ◌&&◌, ◌||◌, Option, none, some, List, [], ◌∷◌, ◌++◌,
  String, if◌then◌else◌, ltb, length,
}
use pyinc.Value.Snapshot.{
  Bytes, ℤ, pos, negsuc, Scalars, Snapshot, Items, Entries, Fields, frozen_list, frozen_dict,
  frozen_set, frozen_record, frozen_adapter_value, frozen_ref, tuple, no_items, item, no_entries,
  entry, no_fields, field,
}
use pyinc.Value.Encode.{count_items}
use pyinc.Value.Reach.{contains, extend_pending, reach, ref_count}
use pyinc.Value.Payload.{bytes_equal}
use pyinc.Value.Classes.{text_equal, frozenset_kind}

-- The reasons for which a snapshot is refused, one for each message.
pub data Invalid : Type 0 where
  too_nested bad_nan bad_complex_nan ref_outside : Invalid
  keys_collapse duplicate_keys keys_unordered : Invalid
  set_kind members_collapse duplicate_members members_unordered : Invalid
  type_name field_name duplicate_fields adapter_key : Invalid
  no_nodes node_shell unreachable_nodes : Invalid

unfoldable pub require : Bool → Invalid → Option Invalid
require true e = none
require false e = some e

-- The checks one after the other: the first that fails.
infixl 15 ◌>>◌
abbrev pub ◌>>◌ : Option Invalid → Option Invalid → Option Invalid
none >> o = o
(some e) >> o = some e

-- `_MAX_SNAPSHOT_DEPTH`
abbrev pub max_depth : ℕ
max_depth = 200

-- `"set"`
abbrev pub set_kind_text : Bytes
set_kind_text = b's' ∷ b'e' ∷ b't' ∷ []

unfoldable pub has_digest : String → List String → Bool
has_digest d [] = false
has_digest d (e ∷ es) = if str_eq e d then true else has_digest d es

-- `len(set(digests)) == len(digests)`
unfoldable pub all_distinct : List String → Bool
unfolding has_digest
all_distinct [] = true
all_distinct (d ∷ ds) = not (has_digest d ds) && all_distinct ds

unfoldable pub digest_le : String → String → Bool
digest_le a b = elim (compare a b) [ Ordering.gt ↦ false | _ ↦ true ]

-- `digests == sorted(digests)`
unfoldable pub is_sorted : List String → Bool
unfolding digest_le
is_sorted [] = true
is_sorted (d ∷ []) = true
is_sorted (d ∷ e ∷ es) = digest_le d e && is_sorted (e ∷ es)

-- The indices, of which the walk before has refused the negative ones.
unfoldable pub indices : List ℤ → List ℕ
indices [] = []
indices (pos i ∷ is) = i ∷ indices is
indices (negsuc i ∷ is) = indices is

unfoldable pub has_all : ℕ → List ℕ → Bool
unfolding contains
has_all zero reachable = true
has_all (suc n) reachable = contains n reachable && has_all n reachable

unfoldable pub all_below : ℕ → List ℕ → Bool
all_below n [] = true
all_below n (i ∷ is) = ltb i n && all_below n is

-- `0 <= value.index < graph_size`
unfoldable pub in_graph : Option ℕ → ℤ → Bool
in_graph none i = false
in_graph (some n) (pos i) = ltb i n
in_graph (some n) (negsuc i) = false

-- `reachable != set(range(node_count))`. The bound on the rounds of the loop is enough.
unfoldable pub compare_nodes : ℕ → Option (List ℕ) → Option Invalid
unfolding require has_all all_below
compare_nodes n none = some unreachable_nodes
compare_nodes n (some reachable) =
    require (has_all n reachable && all_below n reachable) unreachable_nodes

module _ (c : Scalars) where
  -- `_snapshot_refs`, whose stack takes the last of the children first
  unfoldable mutual
    pub snapshot_refs : Snapshot c → List ℤ
    snapshot_refs (frozen_ref i) = i ∷ []
    snapshot_refs (frozen_list xs) = items_refs xs
    snapshot_refs (frozen_dict es) = entries_refs es
    snapshot_refs (frozen_set kind xs) = items_refs xs
    snapshot_refs (frozen_record name fs) = fields_refs fs
    snapshot_refs (frozen_adapter_value key x) = snapshot_refs x
    snapshot_refs (tuple xs) = items_refs xs
    snapshot_refs _ = []

    pub items_refs : Items c → List ℤ
    items_refs no_items = []
    items_refs (item x xs) = items_refs xs ++ snapshot_refs x

    pub entries_refs : Entries c → List ℤ
    entries_refs no_entries = []
    entries_refs (entry k v es) = entries_refs es ++ (snapshot_refs v ++ snapshot_refs k)

    pub fields_refs : Fields c → List ℤ
    fields_refs no_fields = []
    fields_refs (field name x fs) = fields_refs fs ++ snapshot_refs x

  -- `_snapshot_refs(value.nodes[index])`
  unfoldable pub node_refs : Items c → ℕ → List ℕ
  unfolding indices snapshot_refs
  node_refs no_items i = []
  node_refs (item x xs) zero = indices (snapshot_refs x)
  node_refs (item x xs) (suc i) = node_refs xs i

  -- The loop from the root's references, and its check
  unfoldable pub check_reachable : Items c → Snapshot c → Option Invalid
  unfolding reach extend_pending node_refs ref_count indices snapshot_refs compare_nodes
  check_reachable nodes root =
      let n = count_items c nodes in
      let start = indices (snapshot_refs root) in
      compare_nodes n (
        reach (node_refs nodes) (length start + ref_count (node_refs nodes) n)
          (extend_pending start []) [])

  -- `require_metadata_string`
  unfoldable pub is_named : c.Text → Bool
  is_named t = not (bytes_equal (c.encode_utf8 t) [])

  unfoldable pub is_set_kind : c.Text → Bool
  is_set_kind t =
      bytes_equal (c.encode_utf8 t) set_kind_text || bytes_equal (c.encode_utf8 t) frozenset_kind

  unfoldable pub is_shell : Snapshot c → Bool
  is_shell (frozen_list xs) = true
  is_shell (frozen_dict es) = true
  is_shell (frozen_set kind xs) = bytes_equal (c.encode_utf8 kind) set_kind_text
  is_shell (frozen_record name fs) = true
  is_shell _ = false

  unfoldable pub has_name : c.Text → Fields c → Bool
  has_name t no_fields = false
  has_name t (field u x fs) = if text_equal c u t then true else has_name t fs

  -- `len(set(names)) == len(names)`
  unfoldable pub distinct_names : Fields c → Bool
  unfolding has_name
  distinct_names no_fields = true
  distinct_names (field t x fs) = not (has_name t fs) && distinct_names fs
