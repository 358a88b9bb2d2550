-- ===== src/Kernel/Batch.antt =====
-- runtime.py, `Database.set_many`: a batch of inputs, set at one revision. Values reach it frozen,
-- the batch is a list, and no store is configured.
use text.Mathlib.Text.{◌==◌ as str_eq}
use pyinc.Prelude.{
  ℕ, ◌+◌, Bool, true, false, Option, none, some, List, [], ◌∷◌, String, if◌then◌else◌,
}
use pyinc.Kernel.Node.{NodeKey}
use pyinc.Kernel.Program.{
  Error, input_key_error, reentrant_database_error, ok, raise, Values, Input,
}
use pyinc.Kernel.State.{Database, M, get_record}
use pyinc.Kernel.Verify.{policy_conflict}
use pyinc.Kernel.Inputs.{
  inside, input_node_key, input_equal, commit_input_registration, ignore_equal, apply_change,
}

-- `seen_keys`
unfoldable pub seen : String → List String → Bool
seen key [] = false
seen key (j ∷ js) = if str_eq j key then true else seen key js

-- A frozen update, and whether it is equal to the stored value.
pub record Update (S : Type 0) : Type 0 where
  pub equal : Bool
  pub handle : Input S
  pub node_key : NodeKey
  pub snapshot : S
  pub digest : String

module _ {S : Type 0} where
  -- The first loop: the error of the first pair that is refused.
  unfoldable pub validate : List (Input S × S) → List String → Database S → Option Error
  unfolding seen
  validate [] keys s = none
  validate ((i, a) ∷ updates) keys s =
      let rest = validate updates (i.key ∷ keys) s in
      if seen i.key keys
      then some (input_key_error i.key)
      else if policy_conflict i s
      then some (input_key_error i.key)
      else rest

  -- The freezing and the comparisons, which read the state and leave it alone.
  unfoldable pub decisions : Values S → List (Input S × S) → Database S → List (Update S)
  decisions v [] s = []
  decisions v ((i, a) ∷ updates) s =
      record {
        equal = input_equal v i a (get_record (input_node_key i s) s);
        handle = i;
        node_key = input_node_key i s;
        snapshot = a;
        digest = v.fingerprint_snapshot a;
      }
      ∷ decisions v updates s

  unfoldable pub commit_registrations : List (Update S) → Database S → Database S
  commit_registrations [] s = s
  commit_registrations (u ∷ us) s = commit_registrations us (commit_input_registration u.handle s)

  unfoldable pub changed_updates : List (Update S) → List (Update S)
  changed_updates [] = []
  changed_updates (u ∷ us) = let rest = changed_updates us in if u.equal then rest else u ∷ rest

  unfoldable pub ignore_updates : List (Update S) → Database S → Database S
  ignore_updates [] s = s
  ignore_updates (u ∷ us) s =
      ignore_updates us (if u.equal then ignore_equal u.node_key u.snapshot u.digest s else s)

  unfoldable pub apply_changes : List (Update S) → Database S → Database S
  apply_changes [] s = s
  apply_changes (u ∷ us) s = apply_changes us (apply_change u.node_key u.snapshot u.digest s)

  -- `input_equal_ignores`, by the number of equal updates
  unfoldable pub count_ignores : ℕ → Database S → Database S
  count_ignores n s = record s {
    stats = record s.stats { input_equal_ignores = s.stats.input_equal_ignores + n };
  }

  unfoldable pub equal_count : List (Update S) → ℕ
  equal_count [] = 0
  equal_count (u ∷ us) = let rest = equal_count us in if u.equal then rest + 1 else rest

  -- The single revision of the changed updates.
  unfoldable pub bump : List (Update S) → Database S → Database S
  unfolding apply_changes
  bump [] s = s
  bump (u ∷ us) s = apply_changes (u ∷ us) (record s { revision = s.revision + 1 })

  unfoldable pub write_many : List (Update S) → Database S → Database S
  unfolding commit_registrations ignore_updates count_ignores equal_count bump changed_updates
  write_many us s =
      bump (changed_updates us)
        (count_ignores (equal_count us) (ignore_updates us (commit_registrations us s)))

  unfoldable pub set_many : Values S → List (Input S × S) → M S (Unit {0})
  unfolding validate decisions write_many
  set_many v updates s =
      if inside s.execution_stack
      then (raise (reentrant_database_error "db.set_many()"), s)
      else elim (validate updates [] s) [
        | some e ↦ (raise e, s)
        | none ↦ (ok tt, write_many (decisions v updates s) s)
      ]
