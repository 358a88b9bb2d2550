-- ===== src/Value/Decode.antt =====
-- value.py, `_decode_snapshot` and its readers, on the bytes from the cursor on. A result stands for the
-- value and those after it.
use pyinc.Prelude.{
  ℕ, zero, suc, true, false, Option, none, some, [], ◌∷◌, length, take, drop, if◌then◌else◌, ◌==◌,
}
use pyinc.Value.Snapshot.{
  Bytes, ℤ, pos, negsuc, Scalars, Snapshot, Items, Entries, Fields, none_value, bool, int, float,
  complex, str, bytes, frozen_list, frozen_dict, frozen_set, frozen_record, frozen_adapter_value,
  frozen_ref, frozen_graph, tuple, no_items, item, no_entries, entry, no_fields, field,
}
use pyinc.Value.Decimal.{int_of, split_colon}

-- `refused` is an error. `too_deep` is the bound on nested calls, which stands for Python's own.
-- A negative length moves the cursor back, which is not modelled: the result is `backwards`.
pub data Decoded {ℓ} (A : Type ℓ) : Type ℓ where
  ok : A → Decoded A
  refused too_deep backwards : Decoded A

infixl 5 ◌>>=◌
abbrev pub ◌>>=◌ {ℓ κ} : {A : Type ℓ} {B : Type κ} → Decoded A → (A → Decoded B) → Decoded B
ok a >>= f = f a
refused >>= f = refused
too_deep >>= f = too_deep
backwards >>= f = backwards

unfoldable pub or_refused {ℓ} : {A : Type ℓ} → Option A → Decoded A
or_refused none = refused
or_refused (some a) = ok a

-- `_expect`, of one byte
unfoldable pub expect : ℕ → Bytes → Decoded Bytes
expect b [] = refused
expect b (d ∷ bs) = if d == b then ok bs else refused

-- A count or a length. A loop over a negative count does nothing.
abbrev to_count : ℤ → ℕ
to_count (pos n) = n
to_count (negsuc n) = 0

abbrev pub to_length : ℤ → Decoded ℕ
to_length (pos n) = ok n
to_length (negsuc n) = backwards

-- `_read_length_prefixed`
unfoldable pub read_length_prefixed : Bytes → Decoded (Bytes × Bytes)
unfolding or_refused
read_length_prefixed bs = do
  (digits, rest) ← or_refused (split_colon bs)
  n ← or_refused (int_of digits)
  length ← to_length n
  ok (take length rest, drop length rest)

-- `_read_length_prefixed_int`
unfoldable pub read_length_prefixed_int : Bytes → Decoded (ℕ × Bytes)
unfolding or_refused
read_length_prefixed_int bs = do
  (digits, rest) ← or_refused (split_colon bs)
  n ← or_refused (int_of digits)
  ok (to_count n, rest)

module _ (c : Scalars) where
  abbrev pub Reader {ℓ} : Type ℓ → Type ℓ
  Reader A = Bytes → Decoded (A × Bytes)

  -- The loops, with the decoding of one value given.
  module _ (value : Reader (Snapshot c)) where
    unfoldable pub decode_items : ℕ → Reader (Items c)
    decode_items zero bs = ok (no_items, bs)
    decode_items (suc n) bs = do
      (x, bs₁) ← value bs
      (xs, bs₂) ← decode_items n bs₁
      ok (item x xs, bs₂)

    unfoldable pub decode_entries : ℕ → Reader (Entries c)
    decode_entries zero bs = ok (no_entries, bs)
    decode_entries (suc n) bs = do
      (k, bs₁) ← value bs
      (v, bs₂) ← value bs₁
      (es, bs₃) ← decode_entries n bs₂
      ok (entry k v es, bs₃)

    unfoldable pub decode_fields : ℕ → Reader (Fields c)
    unfolding or_refused
    decode_fields zero bs = ok (no_fields, bs)
    decode_fields (suc n) bs = do
      (key, bs₁) ← read_length_prefixed bs
      (v, bs₂) ← value bs₁
      k ← or_refused (c.decode_utf8 key)
      (fs, bs₃) ← decode_fields n bs₂
      ok (field k v fs, bs₃)

    -- `<tag> <count>: <items> ;`
    unfoldable pub counted_items : (Items c → Snapshot c) → Reader (Snapshot c)
    counted_items make bs = do
      (n, bs₁) ← read_length_prefixed_int bs
      (xs, bs₂) ← decode_items n bs₁
      rest ← expect b';' bs₂
      ok (make xs, rest)

    -- The branches of `_decode_snapshot`, by the tag that was read.
    unfoldable pub decode_tagged : ℕ → Reader (Snapshot c)
    unfolding or_refused
    decode_tagged tag bs =
        if tag == b'N'
        then (do rest ← expect b';' bs; ok (none_value, rest))
        else if tag == b'T'
        then (do rest ← expect b';' bs; ok (bool true, rest))
        else if tag == b'F'
        then (do rest ← expect b';' bs; ok (bool false, rest))
        else if tag == b'i'
        then (do
          (body, bs₁) ← read_length_prefixed bs
          rest ← expect b';' bs₁
          n ← or_refused (int_of body)
          ok (int n, rest))
        else if tag == b'f'
        then (do
          (body, bs₁) ← read_length_prefixed bs
          rest ← expect b';' bs₁
          f ← or_refused (c.fromhex body)
          ok (float f, rest))
        else if tag == b'c'
        then (do
          (real, bs₁) ← read_length_prefixed bs
          bs₂ ← expect b',' bs₁
          (imag, bs₃) ← read_length_prefixed bs₂
          rest ← expect b';' bs₃
          r ← or_refused (c.fromhex real)
          i ← or_refused (c.fromhex imag)
          ok (complex r i, rest))
        else if tag == b's'
        then (do
          (body, bs₁) ← read_length_prefixed bs
          rest ← expect b';' bs₁
          t ← or_refused (c.decode_utf8 body)
          ok (str t, rest))
        else if tag == b'b'
        then (do
          (body, bs₁) ← read_length_prefixed bs
          rest ← expect b';' bs₁
          ok (bytes body, rest))
        else if tag == b'L'
        then counted_items frozen_list bs
        else if tag == b'D'
        then (do
          (n, bs₁) ← read_length_prefixed_int bs
          (es, bs₂) ← decode_entries n bs₁
          rest ← expect b';' bs₂
          ok (frozen_dict es, rest))
        else if tag == b'S'
        then (do
          (body, bs₁) ← read_length_prefixed bs
          bs₂ ← expect b',' bs₁
          (n, bs₃) ← read_length_prefixed_int bs₂
          (xs, bs₄) ← decode_items n bs₃
          rest ← expect b';' bs₄
          kind ← or_refused (c.decode_utf8 body)
          ok (frozen_set kind xs, rest))
        else if tag == b'R'
        then (do
          (body, bs₁) ← read_length_prefixed bs
          bs₂ ← expect b',' bs₁
          (n, bs₃) ← read_length_prefixed_int bs₂
          (fs, bs₄) ← decode_fields n bs₃
          rest ← expect b';' bs₄
          name ← or_refused (c.decode_utf8 body)
          ok (frozen_record name fs, rest))
        else if tag == b'A'
        then (do
          (body, bs₁) ← read_length_prefixed bs
          bs₂ ← expect b',' bs₁
          (x, bs₃) ← value bs₂
          rest ← expect b';' bs₃
          key ← or_refused (c.decode_utf8 body)
          ok (frozen_adapter_value key x, rest))
        else if tag == b'r'
        then (do
          (body, bs₁) ← read_length_prefixed bs
          rest ← expect b';' bs₁
          n ← or_refused (int_of body)
          ok (frozen_ref n, rest))
        else if tag == b'G'
        then (do
          (n, bs₁) ← read_length_prefixed_int bs
          (nodes, bs₂) ← decode_items n bs₁
          (root, bs₃) ← value bs₂
          rest ← expect b';' bs₃
          ok (frozen_graph nodes root, rest))
        else if tag == b't'
        then counted_items tuple bs
        else refused

  -- `_decode_snapshot`, with a bound on the depth of nested calls
  unfoldable pub decode_snapshot : ℕ → Reader (Snapshot c)
  decode_snapshot zero bs = too_deep
  decode_snapshot (suc depth) [] = refused
  decode_snapshot (suc depth) (tag ∷ bs) = decode_tagged (decode_snapshot depth) tag bs
