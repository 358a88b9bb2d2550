-- ===== src/Value/Exact.antt =====
-- value.py: the equality and the fingerprints of snapshots, and what they give the kernel.
-- `hashlib.sha256` is a parameter.
use Prim.Native.Nat.{max}
use pyinc.Prelude.{◌≡◌, sym, ◌∙◌, ap, Bool, true, [], String, arith, ◌↔◌}
use pyinc.Value.Snapshot.{Bytes, Scalars, Snapshot}
use pyinc.Value.Payload.{bytes_equal, bytes_equal_iff, with_prefix, fingerprint_snapshot}
use pyinc.Value.Encode.{encode_snapshot}
use pyinc.Value.Decode.{Decoded, ok, decode_snapshot}
use pyinc.Value.RoundTrip.{depth, decode_snapshot-encode_snapshot}
use pyinc.Kernel.Program.{Values, Body, canonical, compare_values, Program}
use pyinc.Kernel.Commit.{IsExact}

module _ (c : Scalars) where
  -- Different snapshots have different encodings, whatever follows each of them: no encoding is a
  -- prefix of another.
  pub encode_snapshot_inj :
      (x y : Snapshot c) (out rest : Bytes)
      → encode_snapshot c x out ≡ encode_snapshot c y rest
      → (x ≡ y) × (out ≡ rest)
  encode_snapshot_inj x y out rest e =
      let limit = max (depth c x) (depth c y) in
      let same : Decoded.ok (x, out) ≡ ok (y, rest) =
        sym (decode_snapshot-encode_snapshot c x limit out (omega arith))
        ∙ ap (decode_snapshot c limit) e
        ∙ decode_snapshot-encode_snapshot c y limit rest (omega arith) in
      (cc same, cc same)

  unfoldable pub snapshots_equal : Snapshot c → Snapshot c → Bool
  snapshots_equal left right = bytes_equal (encode_snapshot c left []) (encode_snapshot c right [])

  -- Canonical equality is equality of snapshots.
  pub snapshots_equal_iff : (x y : Snapshot c) → (snapshots_equal x y ≡ true) ↔ (x ≡ y)
  unfolding snapshots_equal
  snapshots_equal_iff x y = (
    λ h.
        (encode_snapshot_inj x y [] []
          ((bytes_equal_iff (encode_snapshot c x []) (encode_snapshot c y [])).0 h)).0,
    λ e.
        (bytes_equal_iff (encode_snapshot c x []) (encode_snapshot c y [])).1
          (ap (λ z. encode_snapshot c z []) e),
  )

  module _ (sha256 : Bytes → String) where
    -- The value layer, as the kernel takes it.
    abbrev pub snapshot_values : Values (Snapshot c)
    snapshot_values = record {
      snapshots_equal = snapshots_equal;
      fingerprint_snapshot = fingerprint_snapshot c sha256;
    }

    -- A program over snapshots whose queries all have the default policy.
    abbrev pub canonical_program : (String → String → Body (Snapshot c)) → Program (Snapshot c)
    canonical_program body = record {
      values = snapshot_values;
      body = body;
      policy = λ identity. canonical;
    }

    -- The value layer meets what the theorems about the kernel ask of it: if SHA-256 has no
    -- collision on payloads, then the canonical equality, the fingerprints and the default policy
    -- tell different snapshots apart, for any program whose queries have that policy.
    pub canonical_program-IsExact :
        (body : String → String → Body (Snapshot c))
        → ((a b : Bytes) → sha256 a ≡ sha256 b → a ≡ b)
        → IsExact (canonical_program body)
    unfolding compare_values fingerprint_snapshot
    canonical_program-IsExact body collision_free = record {
      snapshots = λ x y h. (snapshots_equal_iff x y).0 h;
      fingerprints = λ x y h.
          let same =
            collision_free (with_prefix (encode_snapshot c x []))
              (with_prefix (encode_snapshot c y [])) h in
          (encode_snapshot_inj x y [] [] cc).0;
      policies = λ identity x y h. (snapshots_equal_iff x y).0 h;
    }
