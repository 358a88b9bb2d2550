-- ===== src/JsonRpc/Framing.antt =====
-- pyinc_tools/_jsonrpc.py: a message that was written is read back.
use pyinc.Prelude.{
  ℕ, suc, ◌+◌, ◌-◌, ◌≤◌, ◌<◌, ◌≡◌, refl, sym, ◌∙◌, ap, Bool, true, false, ◌||◌, not, some, List, [],
  ◌∷◌, ◌++◌, length, arith, ltb, ◌==◌, All, take, drop, length-append,
}
use pyinc.Value.Snapshot.{Bytes}
use pyinc.Value.Digits.{decimal-All, decimal-length, decimal-append}
use pyinc.JsonRpc.Headers.{
  readline, is_ascii, strip, add_header, content_length_key, max_header_bytes, max_content_length,
}
use pyinc.JsonRpc.Messages.{
  Json, message, decode_body, read_body, on_line, on_checked, on_decoded, on_added, read_headers,
  read_message, write_message,
}
use pyinc.JsonRpc.Lines.{
  readline_lem, is_ascii-append, is_ascii_all, prefix, digits, written, strip-written,
  add_header-written, body_length-written,
}

append_assoc : (xs ys zs : Bytes) → ((xs ++ ys) ++ zs) ≡ (xs ++ (ys ++ zs))
append_assoc [] ys zs = refl
append_assoc (x ∷ xs) ys zs = ap (λ ws. x ∷ ws) (append_assoc xs ys zs)

All-append : (P : ℕ → Type 0) (xs ys : Bytes) → All P xs → All P ys → All P (xs ++ ys)
All-append P [] ys h k = k
All-append P (x ∷ xs) ys (first, h) k = (first, All-append P xs ys h k)

take_all : (xs ys : Bytes) → take (length xs) (xs ++ ys) ≡ xs
take_all [] ys = refl
take_all (x ∷ xs) ys = ap (λ zs. x ∷ zs) (take_all xs ys)

drop_all : (xs ys : Bytes) → drop (length xs) (xs ++ ys) ≡ ys
drop_all [] ys = refl
drop_all (x ∷ xs) ys = drop_all xs ys

module _ (n : ℕ) (le : n ≤ max_content_length) where
  digits-short : length (digits n) ≤ 8
  digits-short = decimal-length n (omega (arith, le))

  written-length : length (written n) < 65537
  written-length = omega (arith, length-append (digits n) (13 ∷ []), digits-short)

  written-line : All (λ b. (b == 10) ≡ false) (written n)
  written-line =
      All-append (λ b. (b == 10) ≡ false) prefix (digits n ++ (13 ∷ []))
        (
          refl,
          (
            refl,
            (
              refl,
              (
                refl,
                (
                  refl,
                  (
                    refl,
                    (
                      refl,
                      (refl, (refl, (refl, (refl, (refl, (refl, (refl, (refl, (refl, tt))))))))),
                    ),
                  ),
                ),
              ),
            ),
          ),
        )
        (All-append (λ b. (b == 10) ≡ false) (digits n) (13 ∷ [])
          (decimal-All (λ b. (b == 10) ≡ false) (λ d lt. ground arith) n) (refl, tt))

  -- The header line with its end.
  abbrev line : Bytes
  line = prefix ++ (digits n ++ (13 ∷ 10 ∷ []))

  line-ascii : is_ascii line ≡ true
  unfolding is_ascii
  line-ascii =
      is_ascii-append (digits n) (13 ∷ 10 ∷ [])
      ∙ ground (
        arith,
        is_ascii_all (digits n) (decimal-All (λ b. ltb b 128 ≡ true) (λ d lt. ground arith) n),
      )

  line-length : length line ≤ 26
  line-length = omega (arith, length-append (digits n) (13 ∷ 10 ∷ []), digits-short)

  readline-line : (rest : Bytes) → readline 65537 (written n ++ (10 ∷ rest)) ≡ (line, rest)
  readline-line rest =
      readline_lem (written n) rest 65537 written-line written-length
      ∙ ap (λ xs. (prefix ++ xs, rest)) (append_assoc (digits n) (13 ∷ []) (10 ∷ []))

accepted :
    (m : ℕ) (xs : Bytes)
    → m ≤ 26
    → is_ascii xs ≡ true
    → (ltb max_header_bytes m || not (is_ascii xs)) ≡ false
accepted m xs few ascii = ground (arith, few, ascii)

module _ (j : Json) where
  -- One round of the loop, for a header line and for the blank line.
  round-header :
      (fuel used b d : ℕ) (saw : Bool) (headers added : List (Bytes × Bytes))
      → (bs more rest decoded : Bytes)
      → readline ((max_header_bytes - used) + 1) bs ≡ (b ∷ more, rest)
      → (ltb max_header_bytes (used + length (b ∷ more)) || not (is_ascii (b ∷ more))) ≡ false
      → strip (b ∷ more) ≡ d ∷ decoded
      → add_header (d ∷ decoded) headers ≡ some added
      → read_headers j (suc fuel) used saw headers bs
        ≡ read_headers j fuel (used + length (b ∷ more)) true added rest
  unfolding read_headers on_line on_checked on_decoded on_added
  round-header fuel used b d saw headers added bs more rest decoded e₁ e₂ e₃ e₄ =
      let next =
        λ (total : ℕ) (a : List (Bytes × Bytes)) (r : Bytes). read_headers j fuel total true a r in
      let here = λ (a : List (Bytes × Bytes)). next (used + length (b ∷ more)) a rest in
      ap (on_line j next used saw headers) e₁
      ∙ ap (on_checked j here headers rest (b ∷ more)) e₂
      ∙ ap (on_decoded j here headers rest) e₃
      ∙ ap (on_added j here rest) e₄

  round-blank :
      (fuel used b : ℕ) (saw : Bool) (headers : List (Bytes × Bytes)) (bs more rest : Bytes)
      → readline ((max_header_bytes - used) + 1) bs ≡ (b ∷ more, rest)
      → (ltb max_header_bytes (used + length (b ∷ more)) || not (is_ascii (b ∷ more))) ≡ false
      → strip (b ∷ more) ≡ []
      → read_headers j (suc fuel) used saw headers bs ≡ read_body j headers rest
  unfolding read_headers on_line on_checked on_decoded on_added
  round-blank fuel used b saw headers bs more rest e₁ e₂ e₃ =
      let next =
        λ (total : ℕ) (a : List (Bytes × Bytes)) (r : Bytes). read_headers j fuel total true a r in
      let here = λ (a : List (Bytes × Bytes)). next (used + length (b ∷ more)) a rest in
      ap (on_line j next used saw headers) e₁
      ∙ ap (on_checked j here headers rest (b ∷ more)) e₂
      ∙ ap (on_decoded j here headers rest) e₃

  module _ (v : j.Value) (out : Bytes) (dict : j.is_dict v ≡ true)
      (back : j.loads (j.dumps v) ≡ some v) (le : length (j.dumps v) ≤ max_content_length) where
    abbrev n : ℕ
    n = length (j.dumps v)

    abbrev body : Bytes
    body = j.dumps v ++ out

    write-lines : write_message j v out ≡ written n ++ (10 ∷ 13 ∷ 10 ∷ body)
    unfolding write_message
    write-lines =
        ap (λ xs. prefix ++ xs)
          (decimal-append n (13 ∷ 10 ∷ 13 ∷ 10 ∷ body)
            ∙ sym (append_assoc (digits n) (13 ∷ []) (10 ∷ 13 ∷ 10 ∷ body)))

    read-body : read_body j ((content_length_key, digits n) ∷ []) body ≡ (message v, out)
    unfolding read_body decode_body
    read-body =
        let same : (n == n) ≡ true = ground arith in
        rw
          (
            body_length-written n le,
            read_body,
            take_all (j.dumps v) out,
            drop_all (j.dumps v) out,
            same,
            decode_body,
            back,
            dict,
          )
          refl

    blank :
        (fuel used : ℕ)
        → used ≤ 26
        → read_headers j (suc fuel) used true ((content_length_key, digits n) ∷ []) (13 ∷ 10 ∷ body)
          ≡ (message v, out)
    unfolding strip is_ascii
    blank fuel used few =
        round-blank fuel used 13 true ((content_length_key, digits n) ∷ []) (13 ∷ 10 ∷ body)
          (10 ∷ []) body
          (readline_lem (13 ∷ []) body ((max_header_bytes - used) + 1) (refl, tt)
            (omega (arith, few)))
          (ground (arith, few)) refl
        ∙ read-body

    -- A message that is written is the message that is read, and what follows it on the stream is
    -- left there. The message is an object, its text is parsed as it, and has at most 16 MiB.
    pub read_message-write_message : read_message j (write_message j v out) ≡ (message v, out)
    unfolding read_message
    read_message-write_message =
        let bs = written n ++ (10 ∷ 13 ∷ 10 ∷ body) in
        let few : 0 + length (line n le) ≤ 26 = omega (arith, line-length n le) in
        ap (λ xs. read_headers j (suc (length xs)) 0 false [] xs) write-lines
        ∙ round-header (length bs) 0 b'C' b'C' false [] ((content_length_key, digits n) ∷ []) bs
            (drop 1 (line n le)) (13 ∷ 10 ∷ body) (drop 1 (prefix ++ digits n))
            (readline-line n le (13 ∷ 10 ∷ body))
            (accepted (0 + length (line n le)) (line n le) few (line-ascii n le)) (strip-written n)
            (add_header-written n)
        ∙ blank (length (drop 1 bs)) (0 + length (line n le)) few
