-- ===== src/Kernel/Samples.antt =====
-- A program of two queries and two inputs, on which the theorems about the kernel are applied.
use Prim.Native.String.{◌++◌ as text_append}
use text.Mathlib.Text.{◌==◌ as str_eq}
use text.Mathlib.TextEquality.{eq_iff}
use pyinc.Prelude.{ℕ, ◌≡◌, refl, Bool, true, false, some, String, arith}
use pyinc.Kernel.Node.{Kind, NodeKey}
use pyinc.Kernel.Program.{
  Outcome, ok, raise, Input, canonical, compare_values, Body, ret, throw, read, call, Program,
}
use pyinc.Kernel.Fresh.{World, Rank, IsRanked, Ranked}
use pyinc.Kernel.Run.{Safe}
use pyinc.Kernel.Commit.{IsExact}
use pyinc.Kernel.SetInput.{update}
use pyinc.Kernel.History.{no_inputs}

-- `both` calls `twice` and reads `suffix`; `twice` reads `word`.
abbrev pub word : Input String
word = record { key = "word"; policy = canonical; policy_digest = "exact" }

abbrev pub suffix : Input String
suffix = record { key = "suffix"; policy = canonical; policy_digest = "exact" }

abbrev pub query : String → NodeKey
query name = record { kind = Kind.query; identity = name; args_digest = ""; label = name }

abbrev pub with_value : (String → Body String) → Outcome String → Body String
with_value f (ok v) = f v
with_value f (raise e) = throw e

abbrev pub body_at : Bool → Body String
body_at true =
    call (query "twice") (with_value (λ v. read suffix (with_value (λ u. ret (text_append v u)))))
body_at false = read word (with_value (λ v. ret (text_append v v)))

abbrev pub program : Program String
program = record {
  values = record { snapshots_equal = str_eq; fingerprint_snapshot = λ v. v };
  body = λ name args. body_at (str_eq name "both");
  policy = λ name. canonical;
}

abbrev pub rank_at : Bool → ℕ
rank_at true = 1
rank_at false = 0

abbrev pub rank : Rank
rank name args = rank_at (str_eq name "both")

abbrev pub digests : String → String
digests key = "exact"

pub exact : IsExact program
unfolding compare_values
exact = record {
  snapshots = λ a b h. (eq_iff a b).0 h;
  fingerprints = λ a b h. h;
  policies = λ name a b h. (eq_iff a b).0 h;
}

pub Ranked-with :
    (n : ℕ) (f : String → Body String)
    → ((v : String) → Ranked rank n (f v))
    → (o : Outcome String) → Ranked rank n (with_value f o)
Ranked-with n f h (ok v) = h v
Ranked-with n f h (raise e) = tt

pub Ranked-at : (b : Bool) → Ranked rank (rank_at b) (body_at b)
Ranked-at true = (
  omega arith,
  Ranked-with 1 (λ v. read suffix (with_value (λ u. ret (text_append v u))))
      (λ v. Ranked-with 1 (λ u. ret (text_append v u)) (λ u. tt)),
)
Ranked-at false = Ranked-with 0 (λ v. ret (text_append v v)) (λ v. tt)

pub ranked : IsRanked rank program
ranked name args = Ranked-at (str_eq name "both")

abbrev pub filled : String → World String
filled w = update (update no_inputs "word" w) "suffix" "!"

pub Safe-in :
    (w : World String)
    → ((v : String) × (w "word" ≡ some v))
    → ((v : String) × (w "suffix" ≡ some v))
    → (b : Bool) → Safe program rank digests w (body_at b)
Safe-in w word_set suffix_set true = (refl, λ v e. (suffix_set, refl, λ u e'. tt))
Safe-in w word_set suffix_set false = (word_set, refl, λ v e. tt)

pub canonical_exact : (x y : String) → compare_values program.values word.policy x y ≡ true → x ≡ y
unfolding compare_values
canonical_exact x y h = (eq_iff x y).0 h
