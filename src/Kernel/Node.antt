-- ===== src/Kernel/Node.antt =====
-- runtime.py, `NodeKey`: the identity of a node of the dependency graph. Keys of resources are not
-- modelled.
use Prim.Native.String.{◌++◌ as text_append}
use text.Mathlib.Text.{◌==◌ as str_eq}
use text.Mathlib.TextEquality.{eq_iff}
use pyinc.Prelude.{
  ◌≡◌, refl, Bool, true, false, ◌&&◌, ◌↔◌, ◌⊎◌, inl, inr, List, [], ◌∷◌, String, arith,
  if◌then◌else◌,
}
use pyinc.Assoc.{KeyEq}

pub data Kind : Type 0 where
  input query : Kind

abbrev pub kind_eq : Kind → Kind → Bool
kind_eq Kind.input Kind.input = true
kind_eq Kind.query Kind.query = true
kind_eq _ _ = false

pub kind_cases : (k : Kind) → (k ≡ Kind.input) ⊎ (k ≡ Kind.query)
kind_cases Kind.input = inl refl
kind_cases Kind.query = inr refl

pub record NodeKey : Type 0 where
  pub kind : Kind
  pub identity : String
  pub args_digest : String
  pub label : String

-- `==` of keys. The label takes no part in it (`compare=False`).
unfoldable pub same_key : NodeKey → NodeKey → Bool
same_key a b =
    kind_eq a.kind b.kind && str_eq a.identity b.identity && str_eq a.args_digest b.args_digest

kind_eq_iff : (a b : Kind) → (kind_eq a b ≡ true) ↔ (a ≡ b)
kind_eq_iff a b = ground arith

pub same_key_iff :
    (a b : NodeKey)
    → (same_key a b ≡ true)
      ↔ ((a.kind ≡ b.kind) × (a.identity ≡ b.identity) × (a.args_digest ≡ b.args_digest))
unfolding same_key
same_key_iff a b = ground (
  arith,
  kind_eq_iff a.kind b.kind,
  eq_iff a.identity b.identity,
  eq_iff a.args_digest b.args_digest,
)

pub same_key_refl : (a : NodeKey) → same_key a a ≡ true
same_key_refl a = (same_key_iff a a).1 (refl, refl, refl)

pub same_key_sym : (a b : NodeKey) → same_key a b ≡ true → same_key b a ≡ true
same_key_sym a b h = ground (arith, same_key_iff a b, same_key_iff b a)

pub same_key_trans :
    (a b c : NodeKey) → same_key a b ≡ true → same_key b c ≡ true → same_key a c ≡ true
same_key_trans a b c h k = ground (arith, same_key_iff a b, same_key_iff b c, same_key_iff a c)

abbrev pub node_keys : KeyEq NodeKey
node_keys = record {
  same = same_key;
  same_refl = same_key_refl;
  same_sym = same_key_sym;
  same_trans = same_key_trans;
}

-- `_prospective_input_key`
unfoldable pub prospective_input_key : String → NodeKey
prospective_input_key key = record {
  kind = Kind.input;
  identity = key;
  args_digest = "";
  label = text_append "input[" (text_append key "]");
}

-- Membership in a set of keys, and `set.add`.
unfoldable pub contains : NodeKey → List NodeKey → Bool
contains k [] = false
contains k (j ∷ ks) = if same_key j k then true else contains k ks

unfoldable pub add : NodeKey → List NodeKey → List NodeKey
unfolding contains
add k ks = if contains k ks then ks else k ∷ ks
