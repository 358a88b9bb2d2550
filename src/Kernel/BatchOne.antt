-- ===== src/Kernel/BatchOne.antt =====
-- runtime.py, `set_many`: a batch of one against `set`.
use pyinc.Prelude.{
  ◌+◌, ◌≡◌, refl, sym, ◌∙◌, ap, Bool, true, false, Bool-cases, Option-cases, [], ◌∷◌, String, arith,
  inl, inr, if◌then◌else◌,
}
use pyinc.Kernel.Node.{NodeKey}
use pyinc.Kernel.Program.{ok, Values, Input}
use pyinc.Kernel.State.{Database, get_record}
use pyinc.Kernel.Verify.{policy_conflict}
use pyinc.Kernel.Inputs.{
  inside, set, write_input, input_node_key, input_equal, commit_input_registration, ignore_equal,
  apply_change,
}
use pyinc.Kernel.Batch.{
  seen, Update, validate, decisions, commit_registrations, changed_updates, ignore_updates,
  apply_changes, count_ignores, equal_count, bump, write_many, set_many,
}

module _ {S : Type 0} where
  -- The update that a batch makes of one pair, with a decision given.
  abbrev one : Values S → Input S → S → Database S → Bool → Update S
  one v i a s equal = record {
    equal = equal;
    handle = i;
    node_key = input_node_key i s;
    snapshot = a;
    digest = v.fingerprint_snapshot a;
  }

  ignore_equal-count :
      (k : NodeKey) (a : S) (d : String) (s : Database S)
      → count_ignores 1 (ignore_equal k a d s) ≡ ignore_equal k a d (count_ignores 1 s)
  unfolding ignore_equal count_ignores
  ignore_equal-count k a d s = elim (Option-cases (get_record k s)) [
    | inl missing ↦ ground (arith, missing)
    | inr (r, found) ↦ ground (arith, found)
  ]

  write_many-one :
      (v : Values S) (i : Input S) (a : S) (s : Database S) (equal : Bool)
      → write_many (one v i a s equal ∷ []) s ≡ (
          if equal
          then ignore_equal
              (input_node_key i s)
              a
              (v.fingerprint_snapshot a)
              (count_ignores 1 (commit_input_registration i s))
          else apply_change
              (input_node_key i s)
              a
              (v.fingerprint_snapshot a)
              (record (commit_input_registration i s) {
                revision = (commit_input_registration i s).revision + 1;
              }))
  unfolding write_many changed_updates ignore_updates commit_registrations bump equal_count
      apply_changes
  write_many-one v i a s true =
      ignore_equal-count (input_node_key i s) a (v.fingerprint_snapshot a)
        (commit_input_registration i s)
  write_many-one v i a s false =
      let c = commit_input_registration i s in
      let nothing : c.stats.input_equal_ignores + 0 ≡ c.stats.input_equal_ignores = omega arith in
      ap
        (λ n. apply_change (input_node_key i s) a (v.fingerprint_snapshot a) (record c {
          revision = c.revision + 1;
          stats = record c.stats { input_equal_ignores = n };
        }))
        nothing

  module _ (v : Values S) (i : Input S) (a : S) (s : Database S) where
    abbrev unchanged : Bool
    unchanged = input_equal v i a (get_record (input_node_key i s) s)

    write_input-one : write_many (one v i a s unchanged ∷ []) s ≡ write_input v i a s
    unfolding write_input count_ignores
    write_input-one = write_many-one v i a s unchanged

    many_valid :
        inside s.execution_stack ≡ false
        → policy_conflict i s ≡ false
        → set_many v ((i, a) ∷ []) s ≡ (ok tt, write_many (one v i a s unchanged ∷ []) s)
    unfolding set_many validate seen decisions
    many_valid outside free = ground (arith, outside, free)

    set_valid :
        inside s.execution_stack ≡ false
        → policy_conflict i s ≡ false
        → set v i a s ≡ (ok tt, write_input v i a s)
    unfolding set
    set_valid outside free = rw (outside, free) refl

    -- Outside queries, a batch of one input does what `set` does, refusals included.
    pub set_many-set : inside s.execution_stack ≡ false → set_many v ((i, a) ∷ []) s ≡ set v i a s
    unfolding set_many set validate seen
    set_many-set outside = elim (Bool-cases (policy_conflict i s)) [
      | inl conflict ↦ ground (arith, outside, conflict)
      | inr free ↦
          many_valid outside free
          ∙ ap (λ x. (ok tt, x)) write_input-one
          ∙ sym (set_valid outside free)
    ]
