-- ===== src/Value/Classes.antt =====
-- value.py, `_thaw_equivalence_key`: which keys and members are one after `thaw`. Floats and fractions
-- are Python's and come as `Numbers`; two texts are equal where their encodings are.
use pyinc.Prelude.{Bool, true, false, ◌&&◌, List, [], ◌∷◌, String, if◌then◌else◌}
use text.Mathlib.Text.{◌==◌ as str_eq}
use pyinc.Value.Snapshot.{
  Bytes, ℤ, pos, Scalars, Snapshot, Items, none_value, bool, int, float, complex, str, bytes,
  frozen_set, frozen_adapter_value, tuple, no_items, item,
}
use pyinc.Value.Payload.{bytes_equal, fingerprint_snapshot}

-- `math.isnan`, `math.isinf`, `value > 0`, whether a NaN has the bits of `float.fromhex("nan")`,
-- `Fraction` of a float and of an `int`, `==` of fractions, and `hashlib.sha256`.
pub record Numbers (c : Scalars) : Type 1 where
  pub Fraction : Type 0
  pub is_nan : c.Float → Bool
  pub is_inf : c.Float → Bool
  pub is_positive : c.Float → Bool
  pub has_nan_bits : c.Float → Bool
  pub of_float : c.Float → Fraction
  pub of_int : ℤ → Fraction
  pub same_fraction : Fraction → Fraction → Bool
  pub sha256 : Bytes → String

abbrev pub text_equal : (c : Scalars) → c.Text → c.Text → Bool
text_equal c a b = bytes_equal (c.encode_utf8 a) (c.encode_utf8 b)

-- `"frozenset"`
abbrev pub frozenset_kind : Bytes
frozenset_kind = b'f' ∷ b'r' ∷ b'o' ∷ b'z' ∷ b'e' ∷ b'n' ∷ b's' ∷ b'e' ∷ b't' ∷ []

-- `all` and `any`, of tests on one value and of values on one test
abbrev any_test : {A : Type 0} → List (A → Bool) → A → Bool
any_test [] y = false
any_test (t ∷ ts) y = if t y then true else any_test ts y

abbrev any_value : {A : Type 0} → (A → Bool) → List A → Bool
any_value t [] = false
any_value t (y ∷ ys) = if t y then true else any_value t ys

abbrev all_tests : {A : Type 0} → List (A → Bool) → List A → Bool
all_tests [] ys = true
all_tests (t ∷ ts) ys = any_value t ys && all_tests ts ys

abbrev all_values : {A : Type 0} → List (A → Bool) → List A → Bool
all_values ts [] = true
all_values ts (y ∷ ys) = any_test ts y && all_values ts ys

module _ (c : Scalars) (num : Numbers c) where
  pub data RealKey : Type 0 where
    nan plus_inf minus_inf : RealKey
    fraction : num.Fraction → RealKey

  unfoldable pub real_number_key : c.Float → RealKey
  real_number_key f =
      if num.is_nan f
      then nan
      else if num.is_inf f
      then (if num.is_positive f then plus_inf else minus_inf)
      else fraction (num.of_float f)

  abbrev pub same_real : RealKey → RealKey → Bool
  same_real nan nan = true
  same_real plus_inf plus_inf = true
  same_real minus_inf minus_inf = true
  same_real (fraction a) (fraction b) = num.same_fraction a b
  same_real _ _ = false

  -- The tagged tuples that the function returns.
  mutual
    pub data Class : Type 0 where
      none_class : Class
      num_class : RealKey → RealKey → Class
      str_class : c.Text → Class
      bytes_class : Bytes → Class
      tuple_class : Classes → Class
      frozenset_class : Classes → Class
      adapter_class : c.Text → Class → Class
      encoded : String → Class

    pub data Classes : Type 0 where
      no_classes : Classes
      class : Class → Classes → Classes

  abbrev listed : Classes → List Class
  listed no_classes = []
  listed (class a as') = a ∷ listed as'

  -- `==` of the tuples, where frozensets are equal if each has the members of the other
  unfoldable mutual
    pub class_equal : Class → Class → Bool
    class_equal none_class none_class = true
    class_equal (num_class r i) (num_class r' i') = same_real r r' && same_real i i'
    class_equal (str_class t) (str_class t') = text_equal c t t'
    class_equal (bytes_class b) (bytes_class b') = bytes_equal b b'
    class_equal (tuple_class xs) (tuple_class ys) = classes_equal xs ys
    class_equal (frozenset_class xs) (frozenset_class ys) =
        let tests = class_tests xs in all_tests tests (listed ys) && all_values tests (listed ys)
    class_equal (adapter_class k x) (adapter_class k' y) = text_equal c k k' && class_equal x y
    class_equal (encoded d) (encoded d') = str_eq d d'
    class_equal _ _ = false

    pub classes_equal : Classes → Classes → Bool
    classes_equal no_classes no_classes = true
    classes_equal (class x xs) (class y ys) = class_equal x y && classes_equal xs ys
    classes_equal _ _ = false

    pub class_tests : Classes → List (Class → Bool)
    class_tests no_classes = []
    class_tests (class x xs) = class_equal x ∷ class_tests xs

  -- `Fraction(int(snapshot))` of a `bool`
  abbrev bool_int : Bool → ℤ
  bool_int true = pos 1
  bool_int false = pos 0

  unfoldable mutual
    pub thaw_equivalence_key : Snapshot c → Class
    thaw_equivalence_key none_value = none_class
    thaw_equivalence_key (bool b) =
        num_class (fraction (num.of_int (bool_int b))) (fraction (num.of_int (pos 0)))
    thaw_equivalence_key (int n) =
        num_class (fraction (num.of_int n)) (fraction (num.of_int (pos 0)))
    thaw_equivalence_key (float f) = num_class (real_number_key f) (fraction (num.of_int (pos 0)))
    thaw_equivalence_key (complex r i) = num_class (real_number_key r) (real_number_key i)
    thaw_equivalence_key (str t) = str_class t
    thaw_equivalence_key (bytes b) = bytes_class b
    thaw_equivalence_key (tuple xs) = tuple_class (thaw_equivalence_keys xs)
    thaw_equivalence_key (frozen_set kind xs) =
        let members = thaw_equivalence_keys xs in
        if bytes_equal (c.encode_utf8 kind) frozenset_kind
        then frozenset_class members
        else encoded (fingerprint_snapshot c num.sha256 (frozen_set kind xs))
    thaw_equivalence_key (frozen_adapter_value key x) = adapter_class key (thaw_equivalence_key x)
    thaw_equivalence_key x = encoded (fingerprint_snapshot c num.sha256 x)

    pub thaw_equivalence_keys : Items c → Classes
    thaw_equivalence_keys no_items = no_classes
    thaw_equivalence_keys (item x xs) = class (thaw_equivalence_key x) (thaw_equivalence_keys xs)
