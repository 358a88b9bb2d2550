-- ===== src/Value/Decimal.antt =====
-- Python's `str` of a number and `int` of bytes: decimal digits, as ASCII bytes.
use pyinc.Prelude.{
  ℕ, zero, suc, ◌+◌, ◌-◌, ◌*◌, ◌/◌, ◌%◌, ◌≤◌, ◌<◌, ◌≡◌, refl, sym, ◌∙◌, ap, Bool, true, false,
  Bool-cases, ◌&&◌, ◌||◌, Option, none, some, [], ◌∷◌, arith, inl, inr, if◌then◌else◌, ltb, leb,
  ◌==◌,
}
use pyinc.Value.Snapshot.{Bytes, ℤ, pos, negsuc}

-- The digits of `n`, before `out`. Each round divides by ten, so the number itself is fuel enough.
unfoldable pub emit : ℕ → ℕ → Bytes → Bytes
emit zero n out = out
emit (suc fuel) n out = elim (ltb n 10) [
  | true ↦ (48 + n) ∷ out
  | false ↦ emit fuel (n / 10) ((48 + n % 10) ∷ out)
]

-- `str(n).encode("ascii")`, before `out`
unfoldable pub decimal : ℕ → Bytes → Bytes
unfolding emit
decimal n out = emit (suc n) n out

-- `str(value)` of an integer
unfoldable pub decimal_int : ℤ → Bytes → Bytes
unfolding decimal
decimal_int (pos n) out = decimal n out
decimal_int (negsuc n) out = b'-' ∷ decimal (suc n) out

unfoldable pub is_digit : ℕ → Bool
is_digit c = leb b'0' c && leb c b'9'

-- What `int` takes for white space in ASCII.
unfoldable pub is_space : ℕ → Bool
is_space c = c == 32 || (leb 9 c && leb c 13) || (leb 28 c && leb c 31)

all_spaces : Bytes → Bool
all_spaces [] = true
all_spaces (c ∷ cs) = is_space c && all_spaces cs

-- Digits with single underscores between them, and white space after them.
scan : Bool → ℕ → Bytes → Option ℕ
unfolding is_digit is_space all_spaces
scan after n [] = if after then some n else none
scan after n (c ∷ cs) = elim (is_digit c) [
  | true ↦ scan true (10 * n + (c - 48)) cs
  | false ↦ elim (after && c == b'_') [
    | true ↦ scan false n cs
    | false ↦ if after && is_space c && all_spaces cs then some n else none
  ]
]

negate : ℕ → ℤ
negate zero = pos zero
negate (suc n) = negsuc n

as_int : (ℕ → ℤ) → Option ℕ → Option ℤ
as_int sign none = none
as_int sign (some n) = some (sign n)

signed : Bytes → Option ℤ
unfolding as_int negate scan
signed [] = none
signed (c ∷ cs) =
    if c == b'-'
    then as_int negate (scan false 0 cs)
    else if c == b'+'
    then as_int pos (scan false 0 cs)
    else as_int pos (scan false 0 (c ∷ cs))

-- `int(text.decode("ascii"))`, with no value where it raises
unfoldable pub int_of : Bytes → Option ℤ
unfolding signed
int_of [] = none
int_of (c ∷ cs) = let stripped = int_of cs in if is_space c then stripped else signed (c ∷ cs)

-- The bytes before the first colon and those after it.
unfoldable pub split_colon : Bytes → Option (Bytes × Bytes)
split_colon [] = none
split_colon (c ∷ cs) =
    if c == b':'
    then some ([], cs)
    else elim (split_colon cs) [ none ↦ none | some (front, back) ↦ some (c ∷ front, back) ]

pub emit_small : (fuel n : ℕ) (out : Bytes) → n < 10 → emit (suc fuel) n out ≡ (48 + n) ∷ out
unfolding emit
emit_small fuel n out h = ground (arith)

pub emit_large :
    (fuel n : ℕ) (out : Bytes)
    → 10 ≤ n
    → emit (suc fuel) n out ≡ emit fuel (n / 10) ((48 + n % 10) ∷ out)
unfolding emit
emit_large fuel n out h = ground (arith)

scan_digit :
    (after : Bool) (n d : ℕ) (cs : Bytes)
    → d < 10
    → scan after n ((48 + d) ∷ cs) ≡ scan true (10 * n + d) cs
unfolding scan is_digit
scan_digit after n d cs h =
    let digit : (leb b'0' (48 + d) && leb (48 + d) b'9') ≡ true = ground arith in
    let value : (48 + d) - 48 ≡ d = omega arith in ground (arith, digit, value)

emit-scan :
    (fuel n : ℕ) (after : Bool) (out : Bytes)
    → n < fuel
    → scan after 0 (emit fuel n out) ≡ scan true n out
emit-scan zero n after out h = absurd (omega arith)
emit-scan (suc fuel) n after out h = elim (Bool-cases (ltb n 10)) [
  | inl small ↦
      rw (emit_small fuel n out (ground (arith, small)))
        (scan_digit after 0 n out (ground (arith, small)) ∙ ap (λ m. scan true m out) (omega arith))
  | inr large ↦ rw (emit_large fuel n out (ground (arith, large))) (
      emit-scan fuel (n / 10) after ((48 + n % 10) ∷ out) (ground (arith, large))
      ∙ scan_digit true (n / 10) (n % 10) out (omega arith)
      ∙ ap (λ m. scan true m out) (omega arith))
]

-- The digits begin with a digit.
pub emit_head :
    (fuel n : ℕ) (out : Bytes)
    → n < fuel
    → (d : ℕ) × (d < 10) × (tail : Bytes) × (emit fuel n out ≡ (48 + d) ∷ tail)
emit_head zero n out h = absurd (omega arith)
emit_head (suc fuel) n out h = elim (Bool-cases (ltb n 10)) [
  | inl small ↦ (n, ground (arith, small), out, emit_small fuel n out (ground (arith, small)))
  | inr large ↦
      let (d, lt, tail, e) =
        emit_head fuel (n / 10) ((48 + n % 10) ∷ out) (ground (arith, large)) in
      (d, lt, tail, emit_large fuel n out (ground (arith, large)) ∙ e)
]

split_colon_digit :
    (d : ℕ) (cs front back : Bytes)
    → d < 10
    → split_colon cs ≡ some (front, back)
    → split_colon ((48 + d) ∷ cs) ≡ some ((48 + d) ∷ front, back)
unfolding split_colon
split_colon_digit d cs front back h e =
    let other : (48 + d == b':') ≡ false = ground arith in rw (other, e) refl

split_colon-emit :
    (fuel n : ℕ) (cs front back : Bytes)
    → split_colon cs ≡ some (front, back)
    → split_colon (emit fuel n cs) ≡ some (emit fuel n front, back)
unfolding emit
split_colon-emit zero n cs front back e = e
split_colon-emit (suc fuel) n cs front back e = elim (Bool-cases (ltb n 10)) [
  | inl small ↦
      rw
        (
          emit_small fuel n cs (ground (arith, small)),
          emit_small fuel n front (ground (arith, small)),
        )
        (split_colon_digit n cs front back (ground (arith, small)) e)
  | inr large ↦
      rw
        (
          emit_large fuel n cs (ground (arith, large)),
          emit_large fuel n front (ground (arith, large)),
        )
        (split_colon-emit fuel (n / 10) ((48 + n % 10) ∷ cs) ((48 + n % 10) ∷ front) back
          (split_colon_digit (n % 10) cs front back (omega arith) e))
]

-- The bytes before a colon are the digits of the number that was printed there.
pub split_colon-decimal :
    (n : ℕ) (cs : Bytes) → split_colon (decimal n (b':' ∷ cs)) ≡ some (decimal n [], cs)
unfolding decimal split_colon
split_colon-decimal n cs = split_colon-emit (suc n) n (b':' ∷ cs) [] cs refl

int_of-emit :
    (fuel n : ℕ) (sign : ℕ → ℤ)
    → n < fuel
    → as_int sign (scan false 0 (emit fuel n [])) ≡ some (sign n)
unfolding as_int scan
int_of-emit fuel n sign h = rw (emit-scan fuel n false [] h) refl

pub decimal-emit : (n : ℕ) (out : Bytes) → decimal n out ≡ emit (suc n) n out
unfolding decimal
decimal-emit n out = refl

int_of_digit :
    (d : ℕ) (cs : Bytes)
    → d < 10
    → int_of ((48 + d) ∷ cs) ≡ as_int pos (scan false 0 ((48 + d) ∷ cs))
unfolding int_of signed is_space
int_of_digit d cs h = ground arith

pub int_of-decimal : (n : ℕ) → int_of (decimal n []) ≡ some (pos n)
int_of-decimal n =
    let (d, lt, tail, e) = emit_head (suc n) n [] (omega arith) in
    ap int_of (decimal-emit n [] ∙ e)
    ∙ int_of_digit d tail lt
    ∙ ap (λ bs. as_int pos (scan false 0 bs)) (sym e)
    ∙ int_of-emit (suc n) n pos (omega arith)

int_of_minus : (cs : Bytes) → int_of (b'-' ∷ cs) ≡ as_int negate (scan false 0 cs)
unfolding int_of signed is_space
int_of_minus cs = refl

-- What is printed of an integer is read back.
pub int_of-decimal_int : (n : ℤ) → int_of (decimal_int n []) ≡ some n
unfolding decimal_int negate
int_of-decimal_int (pos n) = int_of-decimal n
int_of-decimal_int (negsuc n) =
    ap (λ bs. int_of (b'-' ∷ bs)) (decimal-emit (suc n) [])
    ∙ int_of_minus (emit (suc (suc n)) (suc n) [])
    ∙ int_of-emit (suc (suc n)) (suc n) negate (omega arith)
