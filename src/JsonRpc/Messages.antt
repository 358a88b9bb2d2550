-- ===== src/JsonRpc/Messages.antt =====
-- pyinc_tools/_jsonrpc.py: `read_message`, `write_message` and `validate_request`. `json.loads` and
-- `json.dumps` are Python's and come as `Json`. A reading stands with the bytes that are left.
use pyinc.Prelude.{
  String, ℕ, zero, suc, ◌+◌, ◌-◌, Bool, true, false, ◌&&◌, ◌||◌, not, Option, none, some, List, [],
  ◌∷◌, ◌++◌, length, take, drop, if◌then◌else◌, ltb, ◌==◌,
}
use pyinc.Value.Snapshot.{Bytes}
use pyinc.Value.Decimal.{decimal}
use pyinc.JsonRpc.Headers.{max_header_bytes, readline, is_ascii, strip, add_header, body_length}

-- `json.loads(body.decode("utf-8"), parse_constant=...)`, with no value where it raises,
-- `isinstance(payload, dict)` and `json.dumps(payload, separators=(",", ":")).encode("utf-8")`.
pub record Json : Type 1 where
  pub Value : Type 0
  pub loads : Bytes → Option Value
  pub is_dict : Value → Bool
  pub dumps : Value → Bytes

-- The outcomes of `read_message`. The last stands for the bound on the rounds of the model's loop.
pub data Reading (J : Type 0) : Type 0 where
  message : J → Reading J
  end_of_stream parse_error invalid_request too_many_lines : Reading J

module _ (j : Json) where
  unfoldable pub decode_body : Bytes → Reading j.Value
  decode_body body = elim (j.loads body) [
    | none ↦ parse_error
    | some v ↦ if j.is_dict v then message v else invalid_request
  ]

  -- After the blank line
  unfoldable pub read_body : List (Bytes × Bytes) → Bytes → Reading j.Value × Bytes
  unfolding body_length decode_body
  read_body headers bs = elim (body_length headers) [
    | none ↦ (parse_error, bs)
    | some n ↦
        if length (take n bs) == n
        then (decode_body (take n bs), drop n bs)
        else (parse_error, drop n bs)
  ]

  -- A round of the loop over the header lines, from the line on, with the next round as `next`.
  unfoldable pub on_added :
      (List (Bytes × Bytes) → Reading j.Value × Bytes)
      → Bytes
      → Option (List (Bytes × Bytes))
      → Reading j.Value × Bytes
  on_added next rest none = (parse_error, rest)
  on_added next rest (some added) = next added

  unfoldable pub on_decoded :
      (List (Bytes × Bytes) → Reading j.Value × Bytes)
      → List (Bytes × Bytes)
      → Bytes
      → Bytes
      → Reading j.Value × Bytes
  unfolding on_added add_header read_body
  on_decoded next headers rest [] = read_body headers rest
  on_decoded next headers rest (d ∷ decoded) = on_added next rest (add_header (d ∷ decoded) headers)

  unfoldable pub on_checked :
      (List (Bytes × Bytes) → Reading j.Value × Bytes)
      → List (Bytes × Bytes)
      → Bytes
      → Bytes
      → Bool
      → Reading j.Value × Bytes
  unfolding on_decoded strip
  on_checked next headers rest line true = (parse_error, rest)
  on_checked next headers rest line false = on_decoded next headers rest (strip line)

  unfoldable pub on_line :
      (ℕ → List (Bytes × Bytes) → Bytes → Reading j.Value × Bytes)
      → ℕ
      → Bool
      → List (Bytes × Bytes)
      → Bytes × Bytes
      → Reading j.Value × Bytes
  unfolding on_checked is_ascii
  on_line next header_bytes saw_header headers ([], rest) =
      (if saw_header then parse_error else end_of_stream, rest)
  on_line next header_bytes saw_header headers (b ∷ more, rest) =
      let total = header_bytes + length (b ∷ more) in
      on_checked (λ added. next total added rest) headers rest (b ∷ more)
        (ltb max_header_bytes total || not (is_ascii (b ∷ more)))

  -- Each round reads a line, so that a round for each byte and one more are enough.
  unfoldable pub read_headers :
      ℕ → ℕ → Bool → List (Bytes × Bytes) → Bytes → Reading j.Value × Bytes
  unfolding readline on_line
  read_headers zero header_bytes saw_header headers bs = (too_many_lines, bs)
  read_headers (suc fuel) header_bytes saw_header headers bs =
      on_line (λ total added rest. read_headers fuel total true added rest) header_bytes saw_header
        headers (readline ((max_header_bytes - header_bytes) + 1) bs)

  unfoldable pub read_message : Bytes → Reading j.Value × Bytes
  unfolding read_headers
  read_message bs = read_headers (suc (length bs)) 0 false [] bs

  -- What `write_message` writes, before what is written after it
  unfoldable pub write_message : j.Value → Bytes → Bytes
  write_message v out =
      b'C'
      ∷ b'o'
      ∷ b'n'
      ∷ b't'
      ∷ b'e'
      ∷ b'n'
      ∷ b't'
      ∷ b'-'
      ∷ b'L'
      ∷ b'e'
      ∷ b'n'
      ∷ b'g'
      ∷ b't'
      ∷ b'h'
      ∷ b':'
      ∷ b' '
      ∷ decimal (length (j.dumps v)) (13 ∷ 10 ∷ 13 ∷ 10 ∷ (j.dumps v ++ out))

-- What `validate_request` asks of a message: `message.get(key)`, `== "2.0"`, `isinstance` of `str` and of
-- `dict` or `list`, `is None`, and `type(value) in {int, str}`.
pub record Members (j : Json) : Type 0 where
  pub member : j.Value → String → Option j.Value
  pub is_version : j.Value → Bool
  pub is_str : j.Value → Bool
  pub is_none : j.Value → Bool
  pub is_int_or_str : j.Value → Bool
  pub is_dict_or_list : j.Value → Bool

module _ (j : Json) (m : Members j) where
  -- The test of a member, and the answer where it is missing
  unfoldable pub member_holds : Bool → (j.Value → Bool) → Option j.Value → Bool
  member_holds missing test none = missing
  member_holds missing test (some v) = test v

  -- `validate_request`, which raises where this is false
  unfoldable pub validate_request : j.Value → Bool
  unfolding member_holds
  validate_request v =
      member_holds false m.is_version (m.member v "jsonrpc")
      && member_holds false m.is_str (m.member v "method")
      && member_holds true (λ id. m.is_none id || m.is_int_or_str id) (m.member v "id")
      && member_holds true m.is_dict_or_list (m.member v "params")
