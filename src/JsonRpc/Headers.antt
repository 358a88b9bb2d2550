-- ===== src/JsonRpc/Headers.antt =====
-- pyinc_tools/_jsonrpc.py: header lines, as `read_message` takes them, on the bytes of a stream that are
-- left to read.
use pyinc.Prelude.{
  ℕ, zero, suc, ◌+◌, Bool, true, false, ◌&&◌, Option, none, some, List, [], ◌∷◌, length,
  if◌then◌else◌, ltb, leb, ◌==◌, is_some,
}
use pyinc.Value.Snapshot.{Bytes, ℤ, pos, negsuc}
use pyinc.Value.Decimal.{is_digit, is_space, int_of, split_colon}
use pyinc.Value.Payload.{bytes_equal}

abbrev pub max_header_bytes : ℕ
max_header_bytes = 65536

abbrev pub max_content_length : ℕ
max_content_length = 16777216

-- `BinaryIO.readline(limit)`: the line with its newline, if the limit lets it, and what follows
unfoldable pub readline : ℕ → Bytes → Bytes × Bytes
readline zero bs = ([], bs)
readline (suc limit) [] = ([], [])
readline (suc limit) (b ∷ bs) =
    let (line, rest) = readline limit bs in if b == 10 then (b ∷ [], bs) else (b ∷ line, rest)

unfoldable pub is_ascii : Bytes → Bool
is_ascii [] = true
is_ascii (b ∷ bs) = ltb b 128 && is_ascii bs

-- `str.strip`, of ASCII texts
unfoldable pub lstrip : Bytes → Bytes
unfolding is_space
lstrip [] = []
lstrip (b ∷ bs) = let stripped = lstrip bs in if is_space b then stripped else b ∷ bs

unfoldable pub keep : ℕ → Bytes → Bytes
unfolding is_space
keep b [] = if is_space b then [] else b ∷ []
keep b (c ∷ cs) = b ∷ c ∷ cs

unfoldable pub rstrip : Bytes → Bytes
unfolding keep
rstrip [] = []
rstrip (b ∷ bs) = keep b (rstrip bs)

unfoldable pub strip : Bytes → Bytes
unfolding lstrip rstrip
strip bs = lstrip (rstrip bs)

-- `str.lower`
unfoldable pub lower : Bytes → Bytes
lower [] = []
lower (b ∷ bs) = (if leb b'A' b && leb b b'Z' then b + 32 else b) ∷ lower bs

unfoldable pub header : Bytes → List (Bytes × Bytes) → Option Bytes
header key [] = none
header key ((k, v) ∷ headers) = if bytes_equal k key then some v else header key headers

unfoldable pub all_digits : Bytes → Bool
unfolding is_digit
all_digits [] = true
all_digits (b ∷ bs) = is_digit b && all_digits bs

-- `str.isdigit`
unfoldable pub isdigit : Bytes → Bool
unfolding all_digits
isdigit [] = false
isdigit (b ∷ bs) = all_digits (b ∷ bs)

-- `lstrip("0") or "0"`, measured
unfoldable pub significant : Bytes → Bytes
significant [] = []
significant (b ∷ bs) = let stripped = significant bs in if b == b'0' then stripped else b ∷ bs

-- What a header line adds, or `none` where it is refused.
unfoldable pub add_header : Bytes → List (Bytes × Bytes) → Option (List (Bytes × Bytes))
unfolding split_colon strip lower header
add_header decoded headers = elim (split_colon decoded) [
  | none ↦ none
  | some (key, value) ↦ elim (strip key) [
    | [] ↦ none
    | b ∷ bs ↦
        if is_some (header (lower (b ∷ bs)) headers)
        then none
        else some ((lower (b ∷ bs), strip value) ∷ headers)
  ]
]

-- `"content-length"`
abbrev pub content_length_key : Bytes
content_length_key =
    b'c' ∷ b'o' ∷ b'n' ∷ b't' ∷ b'e' ∷ b'n' ∷ b't' ∷ b'-' ∷ b'l' ∷ b'e' ∷ b'n' ∷ b'g' ∷ b't' ∷ b'h'
    ∷ []

-- `length > _MAX_CONTENT_LENGTH`, after `int(content_length)`
unfoldable pub limited : Option ℤ → Option ℕ
limited none = none
limited (some (negsuc n)) = none
limited (some (pos n)) = if leb n max_content_length then some n else none

-- The checks of the header
unfoldable pub body_length : List (Bytes × Bytes) → Option ℕ
unfolding header isdigit significant int_of limited
body_length headers = elim (header content_length_key headers) [
  | none ↦ none
  | some value ↦
      if isdigit value && leb (length (significant value)) 8 then limited (int_of value) else none
]
