-- ===== src/Kernel/Program.antt =====
-- core.py and the value layer, as the kernel uses them: inputs, equality policies, and what a
-- query's function does with the database while it runs.

use pyinc.Prelude.{Bool, String}
use pyinc.Kernel.Node.{NodeKey}

-- The errors that the modelled part raises, and those of a query's function. Python's own limit on
-- nested calls stands for the bound on the depth of nested evaluations.
pub data Error : Type 0 where
  cycle_error : String → Error
  key_error : String → Error
  input_key_error : String → Error
  reentrant_database_error : String → Error
  recursion_error : Error
  user_error : String → Error

pub data Outcome {ℓ} (A : Type ℓ) : Type ℓ where
  ok : A → Outcome A
  raise : Error → Outcome A

-- value.py: `snapshots_equal` compares canonical encodings, `fingerprint_snapshot` digests them.
pub record Values (S : Type 0) : Type 0 where
  pub snapshots_equal : S → S → Bool
  pub fingerprint_snapshot : S → String

-- `eq=None, cutoff=None`, an `eq=` or a `cutoff=`, over the operands as they are exposed.
pub data Policy (S : Type 0) : Type 0 where
  canonical : Policy S
  eq : (S → S → Bool) → Policy S
  cutoff : (S → S) → Policy S

-- `_compare_input_snapshots` and `_compare_values`
unfoldable pub compare_values : {S : Type 0} → Values S → Policy S → S → S → Bool
compare_values v canonical left right = v.snapshots_equal left right
compare_values v (eq f) left right = f left right
compare_values v (cutoff f) left right = v.snapshots_equal (f left) (f right)

-- `policy_digest` is what `_input_policy_digest` derives from the policy.
pub record Input (S : Type 0) : Type 0 where
  pub key : String
  pub policy : Policy S
  pub policy_digest : String

-- The function of a query, as the calls that it makes of the database. A handler of its own may
-- catch what a call raises, so the rest of the function is given the outcome.
pub data Body (S : Type 0) : Type 0 where
  ret : S → Body S
  throw : Error → Body S
  read : Input S → (Outcome S → Body S) → Body S
  call : NodeKey → (Outcome S → Body S) → Body S
  report_untracked_read : String → Body S → Body S

-- The queries of a program: a function and a policy, by the identity and the digest of the
-- arguments in a key.
pub record Program (S : Type 0) : Type 0 where
  pub values : Values S
  pub body : String → String → Body S
  pub policy : String → Policy S
