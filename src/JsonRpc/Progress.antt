-- ===== src/JsonRpc/Progress.antt =====
-- pyinc_tools/_jsonrpc.py: how much of a stream one message takes.
use pyinc.Prelude.{
  ℕ, zero, suc, ◌+◌, ◌-◌, ◌≤◌, ◌<◌, ◌≡◌, ◌≢◌, sym, Bool, true, false, ◌||◌, not, Bool-cases, Option,
  none, some, Option-cases, List, [], ◌∷◌, length, take, drop, arith, inl, inr, ltb, leb, ◌==◌,
  ◌&&◌,
}
use mathlib.Core.Path.{subst}
use pyinc.Value.Snapshot.{Bytes, ℤ, pos, negsuc}
use pyinc.Value.Decimal.{int_of}
use pyinc.JsonRpc.Headers.{
  readline, is_ascii, strip, header, isdigit, significant, add_header, content_length_key, limited,
  body_length, max_header_bytes,
}
use pyinc.JsonRpc.Messages.{
  Json, Reading, parse_error, too_many_lines, decode_body, read_body, on_line, on_checked,
  on_decoded, on_added, read_headers, read_message,
}

readline-length :
    (limit : ℕ) (bs : Bytes)
    → (length (readline limit bs).0 + length (readline limit bs).1 ≡ length bs)
      × (length (readline limit bs).0 ≤ limit)
unfolding readline
readline-length zero bs = (omega arith, omega arith)
readline-length (suc limit) [] = (omega arith, omega arith)
readline-length (suc limit) (b ∷ bs) = elim (Bool-cases (b == 10)) [
  | inl newline ↦ rw newline (omega arith, omega arith)
  | inr other ↦
      let (whole, short) = readline-length limit bs in
      rw other (omega (arith, whole), omega (arith, short))
]

readline_some :
    (limit : ℕ) (bs : Bytes) → 1 ≤ limit → 1 ≤ length bs → 1 ≤ length (readline limit bs).0
unfolding readline
readline_some zero bs h k = absurd (omega (arith, h))
readline_some (suc limit) [] h k = absurd (omega (arith, k))
readline_some (suc limit) (b ∷ bs) h k = elim (Bool-cases (b == 10)) [
  | inl newline ↦ rw newline (omega arith)
  | inr other ↦ rw other (omega arith)
]

limited-bound : (o : Option ℤ) (n : ℕ) → limited o ≡ some n → n ≤ 16777216
unfolding limited
limited-bound none n h = absurd cc
limited-bound (some (negsuc m)) n h = absurd cc
limited-bound (some (pos m)) n h = ground (arith, h)

body_length-bound :
    (headers : List (Bytes × Bytes)) (n : ℕ) → body_length headers ≡ some n → n ≤ 16777216
unfolding body_length
body_length-bound headers n h = elim (Option-cases (header content_length_key headers)) [
  | inl missing ↦ absurd (ground (arith, missing, h))
  | inr (value, found) ↦ elim (Bool-cases (isdigit value && leb (length (significant value)) 8)) [
    | inl valid ↦ limited-bound (int_of value) n (ground (arith, found, valid, h))
    | inr bad ↦ absurd (ground (arith, found, bad, h))
  ]
]

take-length : (n : ℕ) (bs : Bytes) → length bs ≤ length (drop n bs) + n
take-length zero bs = omega arith
take-length (suc n) [] = omega arith
take-length (suc n) (b ∷ bs) = omega (arith, take-length n bs)

drop-length : (n : ℕ) (bs : Bytes) → length (drop n bs) ≤ length bs
drop-length zero bs = omega arith
drop-length (suc n) [] = omega arith
drop-length (suc n) (b ∷ bs) = omega (arith, drop-length n bs)

module _ (j : Json) where
  -- Of a stream of `n` bytes, at most `most` are left and at most `taken` are gone, and the loop
  -- ended by itself.
  abbrev Takes : ℕ → ℕ → ℕ → Reading j.Value × Bytes → Type 0
  Takes most n taken r = (length r.1 ≤ most) × ((n ≤ length r.1 + taken) × (r.0 ≢ too_many_lines))

  decode_body-ends : (body : Bytes) → decode_body j body ≢ too_many_lines
  unfolding decode_body
  decode_body-ends body h = elim (Option-cases (j.loads body)) [
    | inl bad ↦ ground (arith, bad, h)
    | inr (v, good) ↦ ground (arith, good, h)
  ]

  read_body-Takes :
      (headers : List (Bytes × Bytes)) (bs : Bytes)
      → Takes (length bs) (length bs) 16777216 (read_body j headers bs)
  unfolding read_body
  read_body-Takes headers bs = elim (Option-cases (body_length headers)) [
    | inl bad ↦ rw (bad, read_body) (omega arith, (omega arith, λ h. ground (arith, h)))
    | inr (n, good) ↦
        let le = body_length-bound headers n good in
        let left = drop-length n bs in
        let gone : length bs ≤ length (drop n bs) + 16777216 =
          omega (arith, take-length n bs, le) in
        elim (Bool-cases (length (take n bs) == n)) [
          | inl whole ↦ rw (good, read_body, whole) (left, (gone, decode_body-ends (take n bs)))
          | inr cut ↦ rw (good, read_body, cut) (left, (gone, λ h. ground (arith, h)))
        ]
  ]

  Takes-weaker :
      (most n taken most' n' taken' : ℕ) (r : Reading j.Value × Bytes)
      → Takes most n taken r
      → most ≤ most'
      → n' + taken ≤ n + taken'
      → Takes most' n' taken' r
  Takes-weaker most n taken most' n' taken' r (left, (gone, ends)) le more =
      (omega (arith, left, le), (omega (arith, gone, more), ends))

  module _ (most n taken : ℕ) where
    on_added-Takes :
        (next : List (Bytes × Bytes) → Reading j.Value × Bytes) (rest : Bytes)
        → Takes most n taken (parse_error, rest)
        → ((added : List (Bytes × Bytes)) → Takes most n taken (next added))
        → (o : Option (List (Bytes × Bytes))) → Takes most n taken (on_added j next rest o)
    unfolding on_added
    on_added-Takes next rest error h none = error
    on_added-Takes next rest error h (some added) = h added

    on_decoded-Takes :
        (next : List (Bytes × Bytes) → Reading j.Value × Bytes)
        → (headers : List (Bytes × Bytes)) (rest : Bytes) → Takes most n taken (parse_error, rest)
        → Takes most n taken (read_body j headers rest)
        → ((added : List (Bytes × Bytes)) → Takes most n taken (next added))
        → (text : Bytes) → Takes most n taken (on_decoded j next headers rest text)
    unfolding on_decoded
    on_decoded-Takes next headers rest error body h [] = body
    on_decoded-Takes next headers rest error body h (d ∷ decoded) =
        on_added-Takes next rest error h (add_header (d ∷ decoded) headers)

  -- What is known of the line that was read.
  abbrev Line : ℕ → ℕ → Bytes × Bytes → Type 0
  Line used n (line, rest) =
      (length line + length rest ≡ n)
      × ((length line ≤ (65536 - used) + 1) × (1 ≤ n → 1 ≤ length line))

  -- What the rounds after this one take.
  abbrev Rest : ℕ → (ℕ → List (Bytes × Bytes) → Bytes → Reading j.Value × Bytes) → Type 0
  Rest fuel next =
      (used : ℕ) (headers : List (Bytes × Bytes)) (bs : Bytes)
      → length bs < fuel
      → used ≤ 65536
      → Takes (length bs) (length bs) ((65537 - used) + 16777216) (next used headers bs)

  on_line-Takes :
      (next : ℕ → List (Bytes × Bytes) → Bytes → Reading j.Value × Bytes) (fuel used n : ℕ)
      → (saw : Bool) (headers : List (Bytes × Bytes)) (lr : Bytes × Bytes) → Rest fuel next
      → n < suc fuel
      → used ≤ 65536
      → Line used n lr
      → Takes (n - 1) n ((65537 - used) + 16777216) (on_line j next used saw headers lr)
  unfolding on_line on_checked
  on_line-Takes next fuel used n saw headers ([], rest) after lt le (whole, (short, some_line)) =
      let nothing : n ≤ 0 = ground (arith, some_line) in
      (
        omega (arith, whole, nothing),
        (
          omega (arith, whole, nothing),
          λ h. elim (Bool-cases saw) [
            | inl later ↦ ground (arith, later, h)
            | inr first ↦ ground (arith, first, h)
          ],
        ),
      )
  on_line-Takes next fuel used n saw headers (b ∷ more, rest) after lt le
        (whole, (short, some_line)) =
      let total = used + length (b ∷ more) in
      let out = (65537 - used) + 16777216 in
      let error : Takes (n - 1) n out (parse_error, rest) =
        (omega (arith, whole), (omega (arith, whole, short, le), λ h. ground (arith, h))) in
      elim (Bool-cases (ltb max_header_bytes total || not (is_ascii (b ∷ more)))) [
        | inl bad ↦
            subst
              (λ x.
                Takes (n - 1) n out
                  (on_checked j (λ added. next total added rest) headers rest (b ∷ more) x))
              (sym bad) error
        | inr good ↦
            let within : total ≤ 65536 = ground (arith, good) in
            subst
              (λ x.
                Takes (n - 1) n out
                  (on_checked j (λ added. next total added rest) headers rest (b ∷ more) x))
              (sym good)
              (on_decoded-Takes (n - 1) n out (λ added. next total added rest) headers rest error
                (Takes-weaker (length rest) (length rest) 16777216 (n - 1) n out
                  (read_body j headers rest) (read_body-Takes headers rest) (omega (arith, whole))
                  (omega (arith, whole, short, le)))
                (λ added.
                  Takes-weaker (length rest) (length rest) ((65537 - total) + 16777216) (n - 1) n
                    out (next total added rest)
                    (after total added rest (omega (arith, whole, lt)) within)
                    (omega (arith, whole)) (omega (arith, whole, within)))
                (strip (b ∷ more)))
      ]

  read_headers-Takes :
      (fuel used : ℕ) (saw : Bool) (headers : List (Bytes × Bytes)) (bs : Bytes)
      → length bs < fuel
      → used ≤ 65536
      → Takes
          (length bs - 1)
          (length bs)
          ((65537 - used) + 16777216)
          (read_headers j fuel used saw headers bs)
  unfolding read_headers
  read_headers-Takes zero used saw headers bs lt le = absurd (omega (arith, lt))
  read_headers-Takes (suc fuel) used saw headers bs lt le =
      let limit = (65536 - used) + 1 in
      let (whole, short) = readline-length limit bs in
      on_line-Takes (λ total added rest. read_headers j fuel total true added rest) fuel used
        (length bs) saw headers (readline limit bs)
        (λ u hs rest lt' le'.
          Takes-weaker (length rest - 1) (length rest) ((65537 - u) + 16777216) (length rest)
            (length rest) ((65537 - u) + 16777216) (read_headers j fuel u true hs rest)
            (read_headers-Takes fuel u true hs rest lt' le') (omega arith) (omega arith))
        lt le (whole, (short, readline_some limit bs (omega arith)))

  -- Reading one message comes to an end, on any bytes. It takes at least one byte, if there is one,
  -- and never more than 64 KiB and one byte of header and 16 MiB of body.
  pub read_message-progress :
      (bs : Bytes)
      → ((read_message j bs).0 ≢ too_many_lines)
        × ((length (read_message j bs).1 ≤ length bs - 1)
            × (length bs ≤ length (read_message j bs).1 + (65537 + 16777216)))
  unfolding read_message
  read_message-progress bs =
      let (left, (gone, ends)) =
        read_headers-Takes (suc (length bs)) 0 false [] bs (omega arith) (omega arith) in
      (ends, (left, omega (arith, gone)))
