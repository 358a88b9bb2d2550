-- ===== src/Pep440/Version.antt =====
-- integrations/_pep440.py: versions, and `compare_versions`. The regular expression is Python's: what
-- its groups hold is the input of `version_of`.
use Prim.Native.Nat.{Ordering, max}
use Prim.Native.Char.{code}
use Prim.Native.String.{[], ◌∷◌}
use text.Mathlib.Text.{◌==◌ as str_eq}
use pyinc.Prelude.{
  ℕ, zero, suc, ◌-◌, ◌&&◌, ◌||◌, Option, none, some, List, [], ◌++◌, map, String, if◌then◌else◌,
  ltb, ◌==◌, length, take, replicate, get_elem?,
}
use pyinc.Pep440.Order.{Preorder, nat_order, text_order, pair_order, list_order}

-- An entry of the local segment, `str | int`.
pub data Component : Type 0 where
  number : ℕ → Component
  word : String → Component

pub record Version : Type 0 where
  pub epoch : ℕ
  pub release : List ℕ
  pub pre : Option (String × ℕ)
  pub post : Option ℕ
  pub dev : Option ℕ
  pub local : List Component

-- The groups of a match: a group of digits as the number that `int` makes of it, and a group that
-- did not take part as none. `local` is split, with `int` of the parts that are digits.
pub record Groups : Type 0 where
  pub epoch : Option ℕ
  pub release : List ℕ
  pub pre_l : Option String
  pub pre_n : Option ℕ
  pub post_n1 : Option ℕ
  pub post_l : Option String
  pub post_n2 : Option ℕ
  pub dev_l : Option String
  pub dev_n : Option ℕ
  pub local : Option (List Component)

unfoldable pub canonical_pre : String → Option String
canonical_pre letter =
    if str_eq letter "a" || str_eq letter "alpha"
    then some "a"
    else if str_eq letter "b" || str_eq letter "beta"
    then some "b"
    else if str_eq letter "c"
        || str_eq letter "rc"
        || str_eq letter "pre"
        || str_eq letter "preview"
    then some "rc"
    else none

abbrev pub or_zero : Option ℕ → ℕ
or_zero none = 0
or_zero (some n) = n

unfoldable pub post_of : Groups → Option ℕ
post_of g = elim g.post_n1 [
  | some n ↦ some n
  | none ↦ elim g.post_l [ some l ↦ some (or_zero g.post_n2) | none ↦ none ]
]

unfoldable pub dev_of : Groups → Option ℕ
dev_of g = elim g.dev_l [ some l ↦ some (or_zero g.dev_n) | none ↦ none ]

unfoldable pub local_of : Groups → List Component
local_of g = elim g.local [ some parts ↦ parts | none ↦ [] ]

unfoldable pub with_pre : Groups → Option (String × ℕ) → Version
unfolding post_of dev_of local_of
with_pre g pre = record {
  epoch = or_zero g.epoch;
  release = g.release;
  pre = pre;
  post = post_of g;
  dev = dev_of g;
  local = local_of g;
}

-- `parse_version` after the match
unfoldable pub version_of : Groups → Option Version
unfolding canonical_pre with_pre
version_of g = elim g.pre_l [
  | none ↦ some (with_pre g none)
  | some letter ↦ elim (canonical_pre letter) [
    | none ↦ none
    | some canonical ↦ some (with_pre g (some (canonical, or_zero g.pre_n)))
  ]
]

unfoldable pub drop_v : String → String
drop_v [] = []
drop_v (c ∷ s) = if code c == code "v" then s else c ∷ s

-- `parse_version`, with `text.strip().lower()` and the match given
unfoldable pub parse_version :
    (String → String) → (String → Option Groups) → String → Option Version
unfolding version_of drop_v
parse_version strip_lower match text = elim (match (drop_v (strip_lower text))) [
  | none ↦ none
  | some groups ↦ version_of groups
]

-- The `while` of `_trim_trailing_zeros`: the new end
unfoldable pub trim_end : ℕ → List ℕ → ℕ
trim_end zero release = zero
trim_end (suc n) release =
    let shorter = trim_end n release in
    elim (get_elem? release n) [
      | none ↦ suc n
      | some last ↦ if ltb 0 n && last == 0 then shorter else suc n
    ]

unfoldable pub trim_trailing_zeros : List ℕ → List ℕ
unfolding trim_end
trim_trailing_zeros release = take (trim_end (length release) release) release

-- The keys of `_comparison_key`. The first entry of a pre-release's key is one more than in the
-- source, where it starts at -1.
unfoldable pub pre_key : Version → ℕ × (String × ℕ)
pre_key v = elim v.pre [
  | some (letter, n) ↦ (1, (letter, n))
  | none ↦ elim v.post [
    | some n ↦ (2, ("", 0))
    | none ↦ elim v.dev [ none ↦ (2, ("", 0)) | some n ↦ (0, ("", 0)) ]
  ]
]

unfoldable pub post_key : Version → ℕ × ℕ
post_key v = elim v.post [ none ↦ (0, 0) | some n ↦ (1, n) ]

unfoldable pub dev_key : Version → ℕ × ℕ
dev_key v = elim v.dev [ none ↦ (1, 0) | some n ↦ (0, n) ]

-- `(1, number)` or `(0, text)`, each with a place for the other kind
unfoldable pub component_key : Component → ℕ × (ℕ × String)
component_key (number n) = (1, (n, ""))
component_key (word s) = (0, (0, s))

unfoldable pub local_key : Version → List (ℕ × (ℕ × String))
unfolding component_key
local_key v = map component_key v.local

abbrev pub SuffixKey : Type 0
SuffixKey = (ℕ × (String × ℕ)) × ((ℕ × ℕ) × ((ℕ × ℕ) × List (ℕ × (ℕ × String))))

unfoldable pub suffix_key : Version → SuffixKey
unfolding pre_key post_key dev_key local_key
suffix_key v = (pre_key v, (post_key v, (dev_key v, local_key v)))

abbrev pub suffix_order : Preorder SuffixKey
suffix_order = pair_order (pair_order nat_order (pair_order text_order nat_order)) (
    pair_order (pair_order nat_order nat_order) (
      pair_order (pair_order nat_order nat_order)
        (list_order (pair_order nat_order (pair_order nat_order text_order)))))

abbrev pub key_order : Preorder (ℕ × (List ℕ × SuffixKey))
key_order = pair_order nat_order (pair_order (list_order nat_order) suffix_order)

unfoldable pub pad : ℕ → List ℕ → List ℕ
pad width release = release ++ replicate (width - length release) 0

-- `compare_versions`: -1, 0 and 1 as `lt`, `eq` and `gt`
unfoldable pub compare_versions : Version → Version → Ordering
unfolding trim_trailing_zeros suffix_key pad
compare_versions left right =
    let left_release = trim_trailing_zeros left.release in
    let right_release = trim_trailing_zeros right.release in
    let width = max (length left_release) (length right_release) in
    key_order.cmp (left.epoch, (pad width left_release, suffix_key left))
      (right.epoch, (pad width right_release, suffix_key right))
