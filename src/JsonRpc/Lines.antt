-- ===== src/JsonRpc/Lines.antt =====
-- pyinc_tools/_jsonrpc.py: the header line that `write_message` writes, as `read_message` takes it.
use pyinc.Prelude.{
  ℕ, zero, suc, ◌+◌, ◌≤◌, ◌<◌, ◌≡◌, refl, sym, ◌∙◌, ap, true, false, ◌&&◌, some, [], ◌∷◌, ◌++◌,
  length, arith, ltb, leb, ◌==◌, All,
}
use pyinc.Value.Snapshot.{Bytes}
use pyinc.Value.Decimal.{decimal, is_digit, is_space, split_colon, int_of-decimal}
use pyinc.Value.Digits.{decimal-All, decimal-length, decimal_head}
use pyinc.Value.Payload.{bytes_equal}
use pyinc.JsonRpc.Headers.{
  readline, is_ascii, lstrip, keep, rstrip, strip, lower, header, all_digits, isdigit, significant,
  add_header, content_length_key, limited, body_length, max_content_length,
}

pub readline_lem :
    (xs rest : Bytes) (limit : ℕ)
    → All (λ b. (b == 10) ≡ false) xs
    → length xs < limit
    → readline limit (xs ++ (10 ∷ rest)) ≡ (xs ++ (10 ∷ []), rest)
unfolding readline
readline_lem xs rest zero h lt = absurd (omega (arith, lt))
readline_lem [] rest (suc limit) h lt = refl
readline_lem (x ∷ xs) rest (suc limit) (other, h) lt =
    rw (other, readline_lem xs rest limit h (omega (arith, lt))) refl

pub is_ascii-append : (xs ys : Bytes) → is_ascii (xs ++ ys) ≡ (is_ascii xs && is_ascii ys)
unfolding is_ascii
is_ascii-append [] ys = refl
is_ascii-append (x ∷ xs) ys = ground (arith, is_ascii-append xs ys)

pub is_ascii_all : (xs : Bytes) → All (λ b. ltb b 128 ≡ true) xs → is_ascii xs ≡ true
unfolding is_ascii
is_ascii_all [] h = refl
is_ascii_all (x ∷ xs) (first, h) = ground (arith, first, is_ascii_all xs h)

-- `rstrip` of a text whose last byte is no white space, with white space after it
rstrip_tail :
    (xs ys : Bytes) → All (λ b. is_space b ≡ false) xs → rstrip ys ≡ [] → rstrip (xs ++ ys) ≡ xs
unfolding rstrip keep
rstrip_tail [] ys h e = e
rstrip_tail (x ∷ []) ys (first, h) e = rw (e, first) refl
rstrip_tail (x ∷ y ∷ xs) ys (first, h) e = ap (keep x) (rstrip_tail (y ∷ xs) ys h e)

rstrip_head :
    (ps xs : Bytes) (b : ℕ) (bs : Bytes) → rstrip xs ≡ b ∷ bs → rstrip (ps ++ xs) ≡ ps ++ (b ∷ bs)
unfolding rstrip keep
rstrip_head [] xs b bs e = e
rstrip_head (p ∷ []) xs b bs e = ap (keep p) e
rstrip_head (p ∷ q ∷ ps) xs b bs e = ap (keep p) (rstrip_head (q ∷ ps) xs b bs e)

lstrip_first : (b : ℕ) (bs : Bytes) → is_space b ≡ false → lstrip (b ∷ bs) ≡ b ∷ bs
unfolding lstrip
lstrip_first b bs h = rw h refl

all_digits_lem : (xs : Bytes) → All (λ b. is_digit b ≡ true) xs → all_digits xs ≡ true
unfolding all_digits
all_digits_lem [] h = refl
all_digits_lem (x ∷ xs) (first, h) = ground (arith, first, all_digits_lem xs h)

significant-length : (xs : Bytes) → length (significant xs) ≤ length xs
unfolding significant
significant-length [] = omega arith
significant-length (x ∷ xs) = ground (arith, significant-length xs)

-- `"Content-Length: "`
abbrev pub prefix : Bytes
prefix =
    b'C' ∷ b'o' ∷ b'n' ∷ b't' ∷ b'e' ∷ b'n' ∷ b't' ∷ b'-' ∷ b'L' ∷ b'e' ∷ b'n' ∷ b'g' ∷ b't' ∷ b'h'
    ∷ b':' ∷ b' ' ∷ []

digit-nonspace : (d : ℕ) → d < 10 → is_space (48 + d) ≡ false
unfolding is_space
digit-nonspace d lt = ground arith

append_nil : (xs : Bytes) → (xs ++ []) ≡ xs
append_nil [] = refl
append_nil (x ∷ xs) = ap (λ ys. x ∷ ys) (append_nil xs)

module _ (n : ℕ) where
  abbrev pub digits : Bytes
  digits = decimal n []

  -- The line without its newline.
  abbrev pub written : Bytes
  written = prefix ++ (digits ++ (13 ∷ []))

  digits-nonspace : All (λ b. is_space b ≡ false) digits
  digits-nonspace = decimal-All (λ b. is_space b ≡ false) digit-nonspace n

  pub strip-written : strip (prefix ++ (digits ++ (13 ∷ 10 ∷ []))) ≡ prefix ++ digits
  unfolding strip
  strip-written =
      let (d, lt, tail, e) = decimal_head n in
      let right = rstrip_tail digits (13 ∷ 10 ∷ []) digits-nonspace refl in
      let whole = rstrip_head prefix (digits ++ (13 ∷ 10 ∷ [])) (48 + d) tail (right ∙ e) in
      ap lstrip (whole ∙ ap (λ xs. prefix ++ xs) (sym e))

  strip-value : strip (32 ∷ digits) ≡ digits
  unfolding strip lstrip
  strip-value =
      let (d, lt, tail, e) = decimal_head n in
      let right =
        ap rstrip (sym (append_nil digits)) ∙ rstrip_tail digits [] digits-nonspace refl in
      let first : is_space (48 + d) ≡ false = digit-nonspace d lt in
      ap lstrip (rstrip_head (32 ∷ []) digits (48 + d) tail (right ∙ e))
      ∙ lstrip_first (48 + d) tail first
      ∙ sym e

  pub add_header-written :
      add_header (prefix ++ digits) [] ≡ some ((content_length_key, digits) ∷ [])
  unfolding add_header split_colon strip lower header
  add_header-written = ap (λ v. some ((content_length_key, v) ∷ [])) strip-value

  isdigit-digits : isdigit digits ≡ true
  unfolding isdigit is_digit
  isdigit-digits =
      let (d, lt, tail, e) = decimal_head n in
      ap isdigit e
      ∙ ap all_digits (sym e)
      ∙ all_digits_lem digits (decimal-All (λ b. is_digit b ≡ true) (λ d lt. ground arith) n)

  pub body_length-written :
      n ≤ max_content_length → body_length ((content_length_key, digits) ∷ []) ≡ some n
  unfolding body_length header bytes_equal limited
  body_length-written le =
      let short : leb (length (significant digits)) 8 ≡ true =
        ground (arith, significant-length digits, decimal-length n (omega (arith, le))) in
      let small : leb n max_content_length ≡ true = ground (arith, le) in
      ground (arith, isdigit-digits, short, int_of-decimal n, small)
