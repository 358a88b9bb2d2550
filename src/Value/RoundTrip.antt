-- ===== src/Value/RoundTrip.antt =====
-- value.py: decoding what was encoded.
use pyinc.Prelude.{
  ℕ, zero, suc, ◌≤◌, ◌≡◌, refl, ap, true, false, [], ◌∷◌, ◌++◌, length, take, drop, arith,
}
use Prim.Native.Nat.{max}
use pyinc.Value.Snapshot.{
  Bytes, Scalars, Snapshot, Items, Entries, Fields, none_value, bool, int, float, complex, str,
  bytes, frozen_list, frozen_dict, frozen_set, frozen_record, frozen_adapter_value, frozen_ref,
  frozen_graph, tuple, no_items, item, no_entries, entry, no_fields, field,
}
use pyinc.Value.Decimal.{decimal_int, split_colon-decimal, int_of-decimal, int_of-decimal_int}
use pyinc.Value.Encode.{
  prefixed, counted, count_items, count_entries, count_fields, encode_snapshot, encode_items,
  encode_entries, encode_fields,
}
use pyinc.Value.Decode.{
  ok, expect, read_length_prefixed, read_length_prefixed_int, decode_items, decode_entries,
  decode_fields, counted_items, decode_tagged, decode_snapshot,
}

take-append : (xs ys : Bytes) → take (length xs) (xs ++ ys) ≡ xs
take-append [] ys = refl
take-append (x ∷ xs) ys = ap (λ zs. x ∷ zs) (take-append xs ys)

drop-append : (xs ys : Bytes) → drop (length xs) (xs ++ ys) ≡ ys
drop-append [] ys = refl
drop-append (x ∷ xs) ys = drop-append xs ys

read-prefixed : (body out : Bytes) → read_length_prefixed (prefixed body out) ≡ ok (body, out)
unfolding read_length_prefixed prefixed
read-prefixed body out =
    rw
      (
        split_colon-decimal (length body) (body ++ out),
        int_of-decimal (length body),
        take-append body out,
        drop-append body out,
      )
      refl

read-counted : (n : ℕ) (out : Bytes) → read_length_prefixed_int (counted n out) ≡ ok (n, out)
unfolding read_length_prefixed_int counted
read-counted n out = rw (split_colon-decimal n out, int_of-decimal n) refl

module _ (c : Scalars) where
  -- How deep the calls nest.
  unfoldable mutual
    pub depth : Snapshot c → ℕ
    depth (frozen_list xs) = suc (depth_items xs)
    depth (frozen_dict es) = suc (depth_entries es)
    depth (frozen_set kind xs) = suc (depth_items xs)
    depth (frozen_record name fs) = suc (depth_fields fs)
    depth (frozen_adapter_value key x) = suc (depth x)
    depth (frozen_graph nodes root) = suc (max (depth_items nodes) (depth root))
    depth (tuple xs) = suc (depth_items xs)
    depth _ = 1

    pub depth_items : Items c → ℕ
    depth_items no_items = 0
    depth_items (item x xs) = max (depth x) (depth_items xs)

    pub depth_entries : Entries c → ℕ
    depth_entries no_entries = 0
    depth_entries (entry k v es) = max (max (depth k) (depth v)) (depth_entries es)

    pub depth_fields : Fields c → ℕ
    depth_fields no_fields = 0
    depth_fields (field k v fs) = max (depth v) (depth_fields fs)

  mutual
    unfolding decode_snapshot decode_items decode_entries decode_fields counted_items decode_tagged
        encode_snapshot depth expect

    decode-encode :
        (x : Snapshot c) (d : ℕ) (out : Bytes)
        → depth x ≤ d
        → decode_snapshot c d (encode_snapshot c x out) ≡ ok (x, out)
    decode-encode none_value zero out h = absurd (omega arith)
    decode-encode none_value (suc d) out h = refl
    decode-encode (bool true) zero out h = absurd (omega arith)
    decode-encode (bool true) (suc d) out h = refl
    decode-encode (bool false) zero out h = absurd (omega arith)
    decode-encode (bool false) (suc d) out h = refl
    decode-encode (int n) zero out h = absurd (omega arith)
    decode-encode (int n) (suc d) out h =
        rw (read-prefixed (decimal_int n []) (b';' ∷ out), int_of-decimal_int n) refl
    decode-encode (float f) zero out h = absurd (omega arith)
    decode-encode (float f) (suc d) out h =
        rw (read-prefixed (c.hex f) (b';' ∷ out), c.fromhex-hex f) refl
    decode-encode (complex r i) zero out h = absurd (omega arith)
    decode-encode (complex r i) (suc d) out h =
        rw
          (
            read-prefixed (c.hex r) (b',' ∷ prefixed (c.hex i) (b';' ∷ out)),
            read-prefixed (c.hex i) (b';' ∷ out),
            c.fromhex-hex r,
            c.fromhex-hex i,
          )
          refl
    decode-encode (str t) zero out h = absurd (omega arith)
    decode-encode (str t) (suc d) out h =
        rw (read-prefixed (c.encode_utf8 t) (b';' ∷ out), c.decode-encode t) refl
    decode-encode (bytes bs) zero out h = absurd (omega arith)
    decode-encode (bytes bs) (suc d) out h = rw (read-prefixed bs (b';' ∷ out)) refl
    decode-encode (frozen_list xs) zero out h = absurd (omega arith)
    decode-encode (frozen_list xs) (suc d) out h =
        rw
          (
            read-counted (count_items c xs) (encode_items c xs (b';' ∷ out)),
            decode-encode_items xs d (b';' ∷ out) (omega arith),
          )
          refl
    decode-encode (frozen_dict es) zero out h = absurd (omega arith)
    decode-encode (frozen_dict es) (suc d) out h =
        rw
          (
            read-counted (count_entries c es) (encode_entries c es (b';' ∷ out)),
            decode-encode_entries es d (b';' ∷ out) (omega arith),
          )
          refl
    decode-encode (frozen_set kind xs) zero out h = absurd (omega arith)
    decode-encode (frozen_set kind xs) (suc d) out h =
        rw
          (
            read-prefixed (c.encode_utf8 kind)
                (b',' ∷ counted (count_items c xs) (encode_items c xs (b';' ∷ out))),
            read-counted (count_items c xs) (encode_items c xs (b';' ∷ out)),
            decode-encode_items xs d (b';' ∷ out) (omega arith),
            c.decode-encode kind,
          )
          refl
    decode-encode (frozen_record name fs) zero out h = absurd (omega arith)
    decode-encode (frozen_record name fs) (suc d) out h =
        rw
          (
            read-prefixed (c.encode_utf8 name)
                (b',' ∷ counted (count_fields c fs) (encode_fields c fs (b';' ∷ out))),
            read-counted (count_fields c fs) (encode_fields c fs (b';' ∷ out)),
            decode-encode_fields fs d (b';' ∷ out) (omega arith),
            c.decode-encode name,
          )
          refl
    decode-encode (frozen_adapter_value key x) zero out h = absurd (omega arith)
    decode-encode (frozen_adapter_value key x) (suc d) out h =
        rw
          (
            read-prefixed (c.encode_utf8 key) (b',' ∷ encode_snapshot c x (b';' ∷ out)),
            decode-encode x d (b';' ∷ out) (omega arith),
            c.decode-encode key,
          )
          refl
    decode-encode (frozen_ref n) zero out h = absurd (omega arith)
    decode-encode (frozen_ref n) (suc d) out h =
        rw (read-prefixed (decimal_int n []) (b';' ∷ out), int_of-decimal_int n) refl
    decode-encode (frozen_graph nodes root) zero out h = absurd (omega arith)
    decode-encode (frozen_graph nodes root) (suc d) out h =
        rw
          (
            read-counted (count_items c nodes)
                (encode_items c nodes (encode_snapshot c root (b';' ∷ out))),
            decode-encode_items nodes d (encode_snapshot c root (b';' ∷ out)) (omega arith),
            decode-encode root d (b';' ∷ out) (omega arith),
          )
          refl
    decode-encode (tuple xs) zero out h = absurd (omega arith)
    decode-encode (tuple xs) (suc d) out h =
        rw
          (
            read-counted (count_items c xs) (encode_items c xs (b';' ∷ out)),
            decode-encode_items xs d (b';' ∷ out) (omega arith),
          )
          refl

    decode-encode_items :
        (xs : Items c) (d : ℕ) (out : Bytes)
        → depth_items xs ≤ d
        → decode_items c (decode_snapshot c d) (count_items c xs) (encode_items c xs out)
          ≡ ok (xs, out)
    decode-encode_items no_items d out h = refl
    decode-encode_items (item x xs) d out h =
        rw
          (
            decode-encode x d (encode_items c xs out) (omega arith),
            decode-encode_items xs d out (omega arith),
          )
          refl

    decode-encode_entries :
        (es : Entries c) (d : ℕ) (out : Bytes)
        → depth_entries es ≤ d
        → decode_entries c (decode_snapshot c d) (count_entries c es) (encode_entries c es out)
          ≡ ok (es, out)
    decode-encode_entries no_entries d out h = refl
    decode-encode_entries (entry k v es) d out h =
        rw
          (
            decode-encode k d (encode_snapshot c v (encode_entries c es out)) (omega arith),
            decode-encode v d (encode_entries c es out) (omega arith),
            decode-encode_entries es d out (omega arith),
          )
          refl

    decode-encode_fields :
        (fs : Fields c) (d : ℕ) (out : Bytes)
        → depth_fields fs ≤ d
        → decode_fields c (decode_snapshot c d) (count_fields c fs) (encode_fields c fs out)
          ≡ ok (fs, out)
    decode-encode_fields no_fields d out h = refl
    decode-encode_fields (field k v fs) d out h =
        rw
          (
            read-prefixed (c.encode_utf8 k) (encode_snapshot c v (encode_fields c fs out)),
            decode-encode v d (encode_fields c fs out) (omega arith),
            c.decode-encode k,
            decode-encode_fields fs d out (omega arith),
          )
          refl

  -- The encoding of a snapshot decodes to that snapshot and leaves the bytes that follow, whatever
  -- they are, if the bound on nested calls is not below the depth of the snapshot.
  pub decode_snapshot-encode_snapshot :
      (x : Snapshot c) (limit : ℕ) (out : Bytes)
      → depth x ≤ limit
      → decode_snapshot c limit (encode_snapshot c x out) ≡ ok (x, out)
  decode_snapshot-encode_snapshot x limit out h = decode-encode x limit out h
