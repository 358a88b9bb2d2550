-- ===== src/Value/ValidTests.antt =====
-- Valid and refused snapshots, over the samples of the tests.
use pyinc.Prelude.{ap, ◌≡◌, ◌≤◌, ◌<◌, ◌↔◌, refl, true, false, none, some, [], arith}
use pyinc.Value.Snapshot.{
  Bytes, pos, Items, Entries, Snapshot, frozen_set, frozen_dict, frozen_list, frozen_ref, int, bool,
  none_value, no_items, item, entry, no_entries,
}
use pyinc.Value.Encode.{count_items, encode_snapshot, prefixed, counted}
use pyinc.Value.Decimal.{decimal_int, decimal}
use pyinc.Value.Decode.{ok}
use pyinc.Value.RoundTrip.{depth}
use pyinc.Value.Payload.{bytes_equal, fingerprint_snapshot, with_prefix}
use pyinc.Value.Classes.{Numbers, class_equal, thaw_equivalence_key}
use pyinc.Value.Checks.{
  require, in_graph, is_named, is_set_kind, is_shell, distinct_names, all_distinct, is_sorted,
  digest_le, has_digest, check_reachable, set_kind_text, members_unordered, members_collapse,
}
use pyinc.Value.Validate.{
  validate_snapshot, walk, is_canonical, has_class, item_digests, key_digests,
}
use pyinc.Value.Serialize.{
  validated, serialize_snapshot, deserialize_snapshot, deserialize-serialize, deserialize-valid,
}
use pyinc.Value.Graphs.{IsReached, walk-reaches}
use pyinc.Value.Canonical.{frozen_set_unique, frozen_dict_unique}
use pyinc.Value.Tests.{scalars, other, hash, mark}

abbrev numbers : Numbers scalars
numbers = record {
  Fraction = Bytes;
  is_nan = λ f. false;
  is_inf = λ f. false;
  is_positive = λ f. true;
  has_nan_bits = λ f. true;
  of_float = λ f. f;
  of_int = λ n. decimal_int n [];
  same_fraction = bytes_equal;
  sha256 = hash;
}

-- `{2, 1}`, in the order of this hash
abbrev two_one : Items scalars
two_one = item (int (pos 2)) (item (int (pos 1)) no_items)

-- `{2: [], 1: None}`
abbrev two_entries : Entries scalars
two_entries = entry (int (pos 2)) (frozen_list no_items) (entry (int (pos 1)) none_value no_entries)

valid_set : validate_snapshot scalars numbers (frozen_set set_kind_text two_one) ≡ none
unfolding validate_snapshot walk require in_graph is_canonical is_named is_set_kind is_shell
    distinct_names all_distinct is_sorted digest_le has_digest has_class class_equal
    thaw_equivalence_key check_reachable item_digests key_digests fingerprint_snapshot
    encode_snapshot prefixed counted decimal_int decimal hash mark bytes_equal
valid_set = refl

valid_dict : validate_snapshot scalars numbers (frozen_dict two_entries) ≡ none
unfolding validate_snapshot walk require in_graph is_canonical is_named is_set_kind is_shell
    distinct_names all_distinct is_sorted digest_le has_digest has_class class_equal
    thaw_equivalence_key check_reachable item_digests key_digests fingerprint_snapshot
    encode_snapshot prefixed counted decimal_int decimal hash mark bytes_equal
valid_dict = refl

-- The other order is refused, as is a key that stands twice.
unordered_set :
    validate_snapshot scalars numbers
      (frozen_set set_kind_text (item (int (pos 1)) (item (int (pos 2)) no_items)))
    ≡ some members_unordered
unfolding validate_snapshot walk require in_graph is_canonical is_named is_set_kind is_shell
    distinct_names all_distinct is_sorted digest_le has_digest has_class class_equal
    thaw_equivalence_key check_reachable item_digests key_digests fingerprint_snapshot
    encode_snapshot prefixed counted decimal_int decimal hash mark bytes_equal
unordered_set = refl

-- `True` and `1` are one member of a Python set.
collapsed_set :
    validate_snapshot scalars numbers
      (frozen_set set_kind_text (item (bool true) (item (int (pos 1)) no_items)))
    ≡ some members_collapse
unfolding validate_snapshot walk require in_graph is_canonical is_named is_set_kind is_shell
    distinct_names all_distinct is_sorted digest_le has_digest has_class class_equal
    thaw_equivalence_key check_reachable item_digests key_digests fingerprint_snapshot
    encode_snapshot prefixed counted decimal_int decimal hash mark bytes_equal
collapsed_set = refl

valid_walk : walk scalars numbers other 0 none ≡ none
unfolding validate_snapshot walk require in_graph is_canonical is_named is_set_kind is_shell
    distinct_names all_distinct is_sorted digest_le has_digest has_class class_equal
    thaw_equivalence_key check_reachable item_digests key_digests fingerprint_snapshot
    encode_snapshot prefixed counted decimal_int decimal hash mark bytes_equal
valid_walk = refl

abbrev a_set : Snapshot scalars
a_set = frozen_set set_kind_text two_one

abbrev a_dict : Snapshot scalars
a_dict = frozen_dict two_entries

frozen_set_unique_example : a_set ≡ a_set
frozen_set_unique_example =
    frozen_set_unique scalars numbers set_kind_text two_one two_one valid_set valid_set
      (λ x. (λ m. m, λ m. m))

frozen_dict_unique_example : a_dict ≡ a_dict
frozen_dict_unique_example =
    frozen_dict_unique scalars numbers two_entries two_entries valid_dict valid_dict
      (λ x. (λ m. m, λ m. m))

serialize-set :
    serialize_snapshot scalars numbers a_set ≡ ok (with_prefix (encode_snapshot scalars a_set []))
unfolding serialize_snapshot
serialize-set = ap (λ o. validated o (with_prefix (encode_snapshot scalars a_set []))) valid_set

deserialize-serialize_example :
    deserialize_snapshot scalars numbers 201 (with_prefix (encode_snapshot scalars a_set []))
    ≡ ok a_set
deserialize-serialize_example =
    deserialize-serialize scalars numbers a_set (with_prefix (encode_snapshot scalars a_set [])) 201
      serialize-set (omega arith)

deserialize-valid_example :
    (validate_snapshot scalars numbers a_set ≡ none)
    × ((depth scalars a_set ≤ 201)
        × ((out : Bytes) × ((serialize_snapshot scalars numbers a_set ≡ ok out)
              × (deserialize_snapshot scalars numbers 201 out ≡ ok a_set))))
deserialize-valid_example =
    deserialize-valid scalars numbers (with_prefix (encode_snapshot scalars a_set [])) 201 a_set
      deserialize-serialize_example

abbrev other_nodes : Items scalars
other_nodes = item (frozen_list (item (frozen_ref (pos 0)) no_items)) no_items

walk-reaches_example :
    (0 < count_items scalars other_nodes) ↔ IsReached scalars other_nodes (frozen_ref (pos 0)) 0
walk-reaches_example =
    walk-reaches scalars numbers other_nodes (frozen_ref (pos 0)) 0 none valid_walk 0
