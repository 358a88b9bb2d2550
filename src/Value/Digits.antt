-- ===== src/Value/Digits.antt =====
-- Python's `str` of a number: what holds of its digits.
use pyinc.Prelude.{
  ℕ, zero, suc, ◌+◌, ◌*◌, ◌/◌, ◌%◌, ◌≤◌, ◌<◌, ◌≡◌, refl, Bool-cases, [], ◌∷◌, ◌++◌, arith, inl, inr,
  ltb, All, length,
}
use pyinc.Value.Snapshot.{Bytes}
use pyinc.Value.Decimal.{emit, decimal, emit_small, emit_large, emit_head}

emit-All :
    (P : ℕ → Type 0)
    → ((d : ℕ) → d < 10 → P (48 + d))
    → (fuel n : ℕ) (out : Bytes) → All P out
    → All P (emit fuel n out)
unfolding emit
emit-All P digit zero n out h = h
emit-All P digit (suc fuel) n out h = elim (Bool-cases (ltb n 10)) [
  | inl small ↦
      rw (emit_small fuel n out (ground (arith, small))) (digit n (ground (arith, small)), h)
  | inr large ↦
      rw (emit_large fuel n out (ground (arith, large)))
        (emit-All P digit fuel (n / 10) ((48 + n % 10) ∷ out) (digit (n % 10) (omega arith), h))
]

-- What holds of every digit holds of all the bytes of a number.
pub decimal-All :
    (P : ℕ → Type 0) → ((d : ℕ) → d < 10 → P (48 + d)) → (n : ℕ) → All P (decimal n [])
unfolding decimal
decimal-All P digit n = emit-All P digit (suc n) n [] tt

emit-append : (fuel n : ℕ) (out rest : Bytes) → emit fuel n (out ++ rest) ≡ emit fuel n out ++ rest
unfolding emit
emit-append zero n out rest = refl
emit-append (suc fuel) n out rest = elim (Bool-cases (ltb n 10)) [
  | inl small ↦
      rw
        (
          emit_small fuel n (out ++ rest) (ground (arith, small)),
          emit_small fuel n out (ground (arith, small)),
        )
        refl
  | inr large ↦
      rw
        (
          emit_large fuel n (out ++ rest) (ground (arith, large)),
          emit_large fuel n out (ground (arith, large)),
        )
        (emit-append fuel (n / 10) ((48 + n % 10) ∷ out) rest)
]

pub decimal-append : (n : ℕ) (rest : Bytes) → decimal n rest ≡ decimal n [] ++ rest
unfolding decimal
decimal-append n rest = emit-append (suc n) n [] rest

-- 10 to the power of `k`
abbrev power : ℕ → ℕ
power zero = 1
power (suc k) = 10 * power k

emit-length :
    (fuel k n : ℕ) (out : Bytes) → n < power (suc k) → length (emit fuel n out) ≤ suc k + length out
unfolding emit
emit-length zero k n out h = omega arith
emit-length (suc fuel) zero n out h = rw (emit_small fuel n out (omega (arith, h))) (omega arith)
emit-length (suc fuel) (suc k) n out h = elim (Bool-cases (ltb n 10)) [
  | inl small ↦ rw (emit_small fuel n out (ground (arith, small))) (omega arith)
  | inr large ↦
      rw (emit_large fuel n out (ground (arith, large)))
        (omega (arith, emit-length fuel k (n / 10) ((48 + n % 10) ∷ out) (omega (arith, h))))
]

-- A number below 10^8 has eight digits at most.
pub decimal-length : (n : ℕ) → n < 100000000 → length (decimal n []) ≤ 8
unfolding decimal
decimal-length n h = emit-length (suc n) 7 n [] h

-- It has one digit at least.
pub decimal_head : (n : ℕ) → (d : ℕ) × (d < 10) × (tail : Bytes) × (decimal n [] ≡ (48 + d) ∷ tail)
unfolding decimal
decimal_head n = emit_head (suc n) n [] (omega arith)
