-- ===== src/Value/Tests.antt =====
-- Snapshots whose texts and floats are their own bytes, on which the theorems are applied.
use Prim.Native.Char.{code}
use Prim.Native.String.{String, [], ◌∷◌}
use text.Mathlib.TextLemmas.{cons-eq-cons, cons-ne-nil}
use pyinc.Prelude.{ℕ, zero, suc, ◌≡◌, refl, sym, ap, true, some, [], ◌∷◌, arith}
use pyinc.Value.Snapshot.{
  Bytes, pos, negsuc, Scalars, Snapshot, none_value, bool, int, str, frozen_list, frozen_dict,
  frozen_record, frozen_graph, frozen_ref, tuple, no_items, item, no_entries, entry, no_fields,
  field,
}
use pyinc.Value.Encode.{encode_snapshot}
use pyinc.Value.Decode.{ok, decode_snapshot}
use pyinc.Value.RoundTrip.{depth, decode_snapshot-encode_snapshot}
use pyinc.Value.Exact.{encode_snapshot_inj, canonical_program, canonical_program-IsExact}
use pyinc.Kernel.Program.{Body, ret}
use pyinc.Kernel.Commit.{IsExact}

abbrev pub scalars : Scalars
scalars = record {
  Text = Bytes;
  Float = Bytes;
  encode_utf8 = λ t. t;
  decode_utf8 = λ bs. some bs;
  hex = λ f. f;
  fromhex = λ bs. some bs;
  decode-encode = λ t. refl;
  fromhex-hex = λ f. refl;
}

-- `{"a": [1, -20], (): None}`, with a text and a number in a record
abbrev sample : Snapshot scalars
sample = frozen_record (b'P' ∷ []) (
    field (b'x' ∷ [])
      (frozen_dict (
        entry (str (b'a' ∷ [])) (frozen_list (item (int (pos 1)) (item (int (negsuc 19)) no_items)))
          (entry (tuple no_items) none_value no_entries)))
      (field (b'y' ∷ []) (bool true) no_fields))

abbrev pub other : Snapshot scalars
other =
    frozen_graph (item (frozen_list (item (frozen_ref (pos 0)) no_items)) no_items)
      (frozen_ref (pos 0))

sample_bytes :
    encode_snapshot scalars (tuple (item (int (negsuc 19)) (item none_value no_items))) []
    ≡ b't' ∷ b'2' ∷ b':' ∷ b'i' ∷ b'3' ∷ b':' ∷ b'-' ∷ b'2' ∷ b'0' ∷ b';' ∷ b'N' ∷ b';' ∷ b';' ∷ []
unfolding encode_snapshot pyinc.Value.Encode.prefixed pyinc.Value.Encode.counted
    pyinc.Value.Decimal.decimal pyinc.Value.Decimal.decimal_int
sample_bytes = refl

depth-sample : depth scalars sample ≡ 4
unfolding depth
depth-sample = refl

decode_snapshot-encode_snapshot_example :
    decode_snapshot scalars 10 (encode_snapshot scalars sample (b'N' ∷ [])) ≡ ok (sample, b'N' ∷ [])
decode_snapshot-encode_snapshot_example =
    decode_snapshot-encode_snapshot scalars sample 10 (b'N' ∷ []) (omega (arith, depth-sample))

abbrev rest : Bytes
rest = b'N' ∷ []

encode_snapshot_inj_example : (sample ≡ sample) × (rest ≡ rest)
encode_snapshot_inj_example = encode_snapshot_inj scalars sample sample rest rest refl

-- A hash without collisions: every byte in unary.
unfoldable pub mark : ℕ → String → String
mark zero s = "b" ∷ s
mark (suc n) s = "a" ∷ mark n s

unfoldable pub hash : Bytes → String
unfolding mark
hash [] = ""
hash (b ∷ bs) = mark b (hash bs)

mark_inj : (m n : ℕ) (s t : String) → mark m s ≡ mark n t → (m ≡ n) × (s ≡ t)
unfolding mark
mark_inj zero zero s t e = (refl, (cons-eq-cons.0 e).1)
mark_inj zero (suc n) s t e = absurd (omega (arith, ap code (cons-eq-cons.0 e).0))
mark_inj (suc m) zero s t e = absurd (omega (arith, ap code (cons-eq-cons.0 e).0))
mark_inj (suc m) (suc n) s t e =
    let (same, rest) = mark_inj m n s t (cons-eq-cons.0 e).1 in (ap suc same, rest)

hash_inj : (xs ys : Bytes) → hash xs ≡ hash ys → xs ≡ ys
unfolding hash mark
hash_inj [] [] e = refl
hash_inj [] (zero ∷ ys) e = absurd (cons-ne-nil "b" (hash ys) (sym e))
hash_inj [] (suc n ∷ ys) e = absurd (cons-ne-nil "a" (mark n (hash ys)) (sym e))
hash_inj (zero ∷ xs) [] e = absurd (cons-ne-nil "b" (hash xs) e)
hash_inj (suc n ∷ xs) [] e = absurd (cons-ne-nil "a" (mark n (hash xs)) e)
hash_inj (m ∷ xs) (n ∷ ys) e =
    let (same, tails) = mark_inj m n (hash xs) (hash ys) e in let equal = hash_inj xs ys tails in cc

abbrev constant : String → String → Body (Snapshot scalars)
constant identity args = ret sample

canonical_program-IsExact_example : IsExact (canonical_program scalars hash constant)
canonical_program-IsExact_example = canonical_program-IsExact scalars hash constant hash_inj
