-- ===== src/Value/Serialize.antt =====
-- value.py: `serialize_snapshot` and `deserialize_snapshot`, with their validation.
use pyinc.Prelude.{ℕ, ◌≤◌, ◌≡◌, refl, sym, ◌∙◌, ap, Option, none, some, [], ◌∷◌, arith}
use pyinc.Value.Snapshot.{Bytes, Scalars, Snapshot}
use pyinc.Value.Encode.{encode_snapshot}
use pyinc.Value.Decode.{Decoded, ok, refused, too_deep, backwards, ◌>>=◌, expect, decode_snapshot}
use pyinc.Value.RoundTrip.{depth, decode_snapshot-encode_snapshot}
use pyinc.Value.Payload.{with_prefix}
use pyinc.Value.Classes.{Numbers}
use pyinc.Value.Checks.{Invalid}
use pyinc.Value.Validate.{validate_snapshot}
use pyinc.Value.Valid.{validate_snapshot-depth}

-- The value, after a validation that may have refused it.
abbrev pub validated : {A : Type 0} → Option Invalid → A → Decoded A
validated none a = ok a
validated (some e) a = refused

module _ (c : Scalars) (num : Numbers c) where
  unfoldable pub serialize_snapshot : Snapshot c → Decoded Bytes
  serialize_snapshot x =
      validated (validate_snapshot c num x) (with_prefix (encode_snapshot c x []))

  -- the end of `deserialize_snapshot`
  unfoldable pub whole : Snapshot c × Bytes → Decoded (Snapshot c)
  whole (x, []) = validated (validate_snapshot c num x) x
  whole (x, _ ∷ _) = refused

  -- `deserialize_snapshot`, with a bound on the depth of nested calls
  unfoldable pub deserialize_snapshot : ℕ → Bytes → Decoded (Snapshot c)
  unfolding whole
  deserialize_snapshot limit payload = do
    bs₁ ← expect b'K' payload
    bs₂ ← expect b'2' bs₁
    bs₃ ← expect b';' bs₂
    decoded ← decode_snapshot c limit bs₃
    whole decoded

  deserialize-decodes :
      (x : Snapshot c) (limit : ℕ)
      → validate_snapshot c num x ≡ none
      → 201 ≤ limit
      → deserialize_snapshot limit (with_prefix (encode_snapshot c x [])) ≡ ok x
  unfolding deserialize_snapshot expect whole
  deserialize-decodes x limit valid le =
      let deep : depth c x ≤ limit = omega (arith, validate_snapshot-depth c num x valid) in
      rw (decode_snapshot-encode_snapshot c x limit [] deep) (ap (λ o. validated o x) valid)

  -- A validated value: there was nothing to refuse.
  validated-ok :
      {A : Type 0} (o : Option Invalid) (a b : A) → validated o a ≡ ok b → (o ≡ none) × (a ≡ b)
  validated-ok none a b h = (refl, cc)
  validated-ok (some e) a b h = absurd cc

  -- What `serialize_snapshot` makes of a snapshot deserializes to that snapshot, if the bound on
  -- nested calls is at least 201.
  pub deserialize-serialize :
      (x : Snapshot c) (payload : Bytes) (limit : ℕ)
      → serialize_snapshot x ≡ ok payload
      → 201 ≤ limit
      → deserialize_snapshot limit payload ≡ ok x
  unfolding serialize_snapshot
  deserialize-serialize x payload limit made le =
      let (valid, same) =
        validated-ok (validate_snapshot c num x) (with_prefix (encode_snapshot c x [])) payload
          made in
      ap (deserialize_snapshot limit) (sym same) ∙ deserialize-decodes x limit valid le

  bind-ok :
      {A B : Type 0} (d : Decoded A) (f : A → Decoded B) (b : B)
      → (d >>= f) ≡ ok b
      → (a : A) × (f a ≡ ok b)
  bind-ok (ok a) f b h = (a, h)
  bind-ok refused f b h = absurd cc
  bind-ok too_deep f b h = absurd cc
  bind-ok backwards f b h = absurd cc

  whole-valid :
      (r : Snapshot c × Bytes) (x : Snapshot c) → whole r ≡ ok x → validate_snapshot c num x ≡ none
  unfolding whole
  whole-valid (y, b ∷ bs) x h = absurd cc
  whole-valid (y, []) x h =
      let (valid, same) = validated-ok (validate_snapshot c num y) y x h in
      ap (validate_snapshot c num) (sym same) ∙ valid

  -- Whatever the bytes, a snapshot that `deserialize_snapshot` returns is valid, nests at most 201
  -- deep, and is returned again for the bytes that `serialize_snapshot` makes of it.
  pub deserialize-valid :
      (payload : Bytes) (limit : ℕ) (x : Snapshot c)
      → deserialize_snapshot limit payload ≡ ok x
      → (validate_snapshot c num x ≡ none)
        × ((depth c x ≤ 201)
            × ((out : Bytes) × ((serialize_snapshot x ≡ ok out)
                  × (deserialize_snapshot 201 out ≡ ok x))))
  unfolding deserialize_snapshot serialize_snapshot
  deserialize-valid payload limit x h =
      let (bs₁, h₁) = bind-ok (expect b'K' payload) _ x h in
      let (bs₂, h₂) = bind-ok (expect b'2' bs₁) _ x h₁ in
      let (bs₃, h₃) = bind-ok (expect b';' bs₂) _ x h₂ in
      let (decoded, h₄) = bind-ok (decode_snapshot c limit bs₃) _ x h₃ in
      let valid = whole-valid decoded x h₄ in
      (
        valid,
        (
          validate_snapshot-depth c num x valid,
          (
            with_prefix (encode_snapshot c x []),
            (
              ap (λ o. validated o (with_prefix (encode_snapshot c x []))) valid,
              deserialize-decodes x 201 valid (omega arith),
            ),
          ),
        ),
      )
