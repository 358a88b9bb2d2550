-- ===== src/Value/Payload.antt =====
-- value.py: the prefix of payloads, the comparison of encodings and fingerprints. `hashlib.sha256` is
-- a parameter.
use pyinc.Prelude.{◌≡◌, refl, Bool, true, false, ◌&&◌, [], ◌∷◌, String, arith, ◌==◌, ◌↔◌}
use pyinc.Value.Snapshot.{Bytes, Scalars, Snapshot}
use pyinc.Value.Encode.{encode_snapshot}

unfoldable pub bytes_equal : Bytes → Bytes → Bool
bytes_equal [] [] = true
bytes_equal (a ∷ xs) (b ∷ ys) = a == b && bytes_equal xs ys
bytes_equal _ _ = false

pub bytes_equal_iff : (xs ys : Bytes) → (bytes_equal xs ys ≡ true) ↔ (xs ≡ ys)
unfolding bytes_equal
bytes_equal_iff [] [] = (λ h. refl, λ h. refl)
bytes_equal_iff [] (b ∷ ys) = (λ h. cc, λ h. cc)
bytes_equal_iff (a ∷ xs) [] = (λ h. cc, λ h. cc)
bytes_equal_iff (a ∷ xs) (b ∷ ys) = ground (arith, bytes_equal_iff xs ys)

-- `_KERNEL_FINGERPRINT_PREFIX`
abbrev pub with_prefix : Bytes → Bytes
with_prefix out = b'K' ∷ b'2' ∷ b';' ∷ out

module _ (c : Scalars) (sha256 : Bytes → String) where
  unfoldable pub fingerprint_snapshot : Snapshot c → String
  fingerprint_snapshot x = sha256 (with_prefix (encode_snapshot c x []))
