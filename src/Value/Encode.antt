-- ===== src/Value/Encode.antt =====
-- value.py, `_encode_snapshot`. `encode_snapshot x out` is what the function appends for `x`, before the
-- bytes `out` that are appended after it. CPython's limit on the digits of an `int` is left out.
use pyinc.Prelude.{ℕ, suc, true, false, [], ◌∷◌, ◌++◌, length}
use pyinc.Value.Snapshot.{
  Bytes, Scalars, Snapshot, Items, Entries, Fields, none_value, bool, int, float, complex, str,
  bytes, frozen_list, frozen_dict, frozen_set, frozen_record, frozen_adapter_value, frozen_ref,
  frozen_graph, tuple, no_items, item, no_entries, entry, no_fields, field,
}
use pyinc.Value.Decimal.{decimal, decimal_int}

-- `<length>:<body>`
unfoldable pub prefixed : Bytes → Bytes → Bytes
prefixed body out = decimal (length body) (b':' ∷ (body ++ out))

-- `<count>:`
unfoldable pub counted : ℕ → Bytes → Bytes
counted n out = decimal n (b':' ∷ out)

module _ (c : Scalars) where
  abbrev pub count_items : Items c → ℕ
  count_items no_items = 0
  count_items (item x xs) = suc (count_items xs)

  abbrev pub count_entries : Entries c → ℕ
  count_entries no_entries = 0
  count_entries (entry k v es) = suc (count_entries es)

  abbrev pub count_fields : Fields c → ℕ
  count_fields no_fields = 0
  count_fields (field k v fs) = suc (count_fields fs)

  unfoldable mutual
    pub encode_snapshot : Snapshot c → Bytes → Bytes
    encode_snapshot none_value out = b'N' ∷ b';' ∷ out
    encode_snapshot (bool true) out = b'T' ∷ b';' ∷ out
    encode_snapshot (bool false) out = b'F' ∷ b';' ∷ out
    encode_snapshot (int n) out = b'i' ∷ prefixed (decimal_int n []) (b';' ∷ out)
    encode_snapshot (float f) out = b'f' ∷ prefixed (c.hex f) (b';' ∷ out)
    encode_snapshot (complex r i) out =
        b'c' ∷ prefixed (c.hex r) (b',' ∷ prefixed (c.hex i) (b';' ∷ out))
    encode_snapshot (str t) out = b's' ∷ prefixed (c.encode_utf8 t) (b';' ∷ out)
    encode_snapshot (bytes bs) out = b'b' ∷ prefixed bs (b';' ∷ out)
    encode_snapshot (frozen_list xs) out =
        b'L' ∷ counted (count_items xs) (encode_items xs (b';' ∷ out))
    encode_snapshot (frozen_dict es) out =
        b'D' ∷ counted (count_entries es) (encode_entries es (b';' ∷ out))
    encode_snapshot (frozen_set kind xs) out =
        b'S'
        ∷ prefixed (c.encode_utf8 kind)
            (b',' ∷ counted (count_items xs) (encode_items xs (b';' ∷ out)))
    encode_snapshot (frozen_record name fs) out =
        b'R'
        ∷ prefixed (c.encode_utf8 name)
            (b',' ∷ counted (count_fields fs) (encode_fields fs (b';' ∷ out)))
    encode_snapshot (frozen_adapter_value key x) out =
        b'A' ∷ prefixed (c.encode_utf8 key) (b',' ∷ encode_snapshot x (b';' ∷ out))
    encode_snapshot (frozen_ref n) out = b'r' ∷ prefixed (decimal_int n []) (b';' ∷ out)
    encode_snapshot (frozen_graph nodes root) out =
        b'G' ∷ counted (count_items nodes) (encode_items nodes (encode_snapshot root (b';' ∷ out)))
    encode_snapshot (tuple xs) out = b't' ∷ counted (count_items xs) (encode_items xs (b';' ∷ out))

    pub encode_items : Items c → Bytes → Bytes
    encode_items no_items out = out
    encode_items (item x xs) out = encode_snapshot x (encode_items xs out)

    pub encode_entries : Entries c → Bytes → Bytes
    encode_entries no_entries out = out
    encode_entries (entry k v es) out =
        encode_snapshot k (encode_snapshot v (encode_entries es out))

    pub encode_fields : Fields c → Bytes → Bytes
    encode_fields no_fields out = out
    encode_fields (field k v fs) out =
        prefixed (c.encode_utf8 k) (encode_snapshot v (encode_fields fs out))
