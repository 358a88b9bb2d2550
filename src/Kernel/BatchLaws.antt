-- ===== src/Kernel/BatchLaws.antt =====
-- runtime.py, `set_many`: the revision of a batch.
use pyinc.Prelude.{
  All, some, ℕ, ◌+◌, ◌≡◌, refl, ◌∙◌, ap, true, Bool-cases, Option-cases, List, [], ◌∷◌, String,
  arith, inl, inr, if◌then◌else◌, ◌⊎◌,
}
use pyinc.Assoc.{find, string_keys}
use pyinc.Kernel.Node.{NodeKey}
use pyinc.Kernel.Program.{ok, Values, Input, compare_values}
use pyinc.Kernel.State.{NodeRecord, Database, get_record}
use pyinc.Kernel.Inputs.{
  inside, input_node_key, input_equal, commit_input_registration, ignore_equal, apply_change,
}
use pyinc.Kernel.Batch.{
  Update, validate, decisions, commit_registrations, changed_updates, ignore_updates, apply_changes,
  count_ignores, equal_count, bump, write_many, set_many,
}

module _ {S : Type 0} where
  ignore_equal-revision :
      (k : NodeKey) (a : S) (d : String) (s : Database S)
      → (ignore_equal k a d s).revision ≡ s.revision
  unfolding ignore_equal
  ignore_equal-revision k a d s = elim (Option-cases (get_record k s)) [
    | inl missing ↦ ground (arith, missing)
    | inr (r, found) ↦ ground (arith, found)
  ]

  registration-revision :
      (i : Input S) (s : Database S) → (commit_input_registration i s).revision ≡ s.revision
  unfolding commit_input_registration
  registration-revision i s = elim (Option-cases (find string_keys i.key s.input_records)) [
    | inl new ↦ ground (arith, new)
    | inr (k, old) ↦ ground (arith, old)
  ]

  commit_registrations-revision :
      (us : List (Update S)) (s : Database S) → (commit_registrations us s).revision ≡ s.revision
  unfolding commit_registrations
  commit_registrations-revision [] s = refl
  commit_registrations-revision (u ∷ us) s =
      commit_registrations-revision us (commit_input_registration u.handle s)
      ∙ registration-revision u.handle s

  ignore_updates-revision :
      (us : List (Update S)) (s : Database S) → (ignore_updates us s).revision ≡ s.revision
  unfolding ignore_updates
  ignore_updates-revision [] s = refl
  ignore_updates-revision (u ∷ us) s = elim (Bool-cases u.equal) [
    | inl same ↦
        ap
          (λ b.
            (ignore_updates us
              (if b then ignore_equal u.node_key u.snapshot u.digest s else s)).revision)
          same
        ∙ ignore_updates-revision us (ignore_equal u.node_key u.snapshot u.digest s)
        ∙ ignore_equal-revision u.node_key u.snapshot u.digest s
    | inr differs ↦
        ap
          (λ b.
            (ignore_updates us
              (if b then ignore_equal u.node_key u.snapshot u.digest s else s)).revision)
          differs
        ∙ ignore_updates-revision us s
  ]

  apply_changes-revision :
      (us : List (Update S)) (s : Database S) → (apply_changes us s).revision ≡ s.revision
  unfolding apply_changes apply_change
  apply_changes-revision [] s = refl
  apply_changes-revision (u ∷ us) s =
      apply_changes-revision us (apply_change u.node_key u.snapshot u.digest s)

  -- The revision after a batch, given the updates that change something.
  abbrev next_revision : List (Update S) → ℕ → ℕ
  next_revision [] n = n
  next_revision (u ∷ us) n = n + 1

  bump-revision :
      (us : List (Update S)) (s : Database S) → (bump us s).revision ≡ next_revision us s.revision
  unfolding bump
  bump-revision [] s = refl
  bump-revision (u ∷ us) s =
      apply_changes-revision (u ∷ us) (record s { revision = s.revision + 1 })

  write_many-revision :
      (us : List (Update S)) (s : Database S)
      → (write_many us s).revision ≡ next_revision (changed_updates us) s.revision
  unfolding write_many count_ignores
  write_many-revision us s =
      bump-revision (changed_updates us)
        (count_ignores (equal_count us) (ignore_updates us (commit_registrations us s)))
      ∙ ap (next_revision (changed_updates us)) (
          ignore_updates-revision us (commit_registrations us s)
          ∙ commit_registrations-revision us s)

  -- The input has a stored value that its policy finds equal to the new one.
  abbrev pub IsStored : Values S → Database S → Input S × S → Type 0
  IsStored v s u =
      (r : NodeRecord S) × ((get_record (input_node_key u.0 s) s ≡ some r)
        × (compare_values v u.0.policy r.snapshot u.1 ≡ true))

  input_equal-IsStored :
      (v : Values S) (i : Input S) (a : S) (s : Database S)
      → input_equal v i a (get_record (input_node_key i s) s) ≡ true
      → IsStored v s (i, a)
  unfolding input_equal
  input_equal-IsStored v i a s e = elim (Option-cases (get_record (input_node_key i s) s)) [
    | inl missing ↦ absurd (ground (arith, missing, e))
    | inr (r, found) ↦ (r, (found, ground (arith, found, e)))
  ]

  IsStored-input_equal :
      (v : Values S) (i : Input S) (a : S) (s : Database S)
      → IsStored v s (i, a)
      → input_equal v i a (get_record (input_node_key i s) s) ≡ true
  unfolding input_equal
  IsStored-input_equal v i a s (r, (found, same)) = rw (found, input_equal) same

  decisions-revision :
      (v : Values S) (updates : List (Input S × S)) (s : Database S) (n : ℕ)
      → (All (IsStored v s) updates
          × (next_revision (changed_updates (decisions v updates s)) n ≡ n))
        ⊎ (¬ All (IsStored v s) updates
            × (next_revision (changed_updates (decisions v updates s)) n ≡ n + 1))
  unfolding decisions changed_updates
  decisions-revision v [] s n = inl (tt, refl)
  decisions-revision v ((i, a) ∷ updates) s n =
      elim (Bool-cases (input_equal v i a (get_record (input_node_key i s) s))) [
        | inl same ↦ elim (decisions-revision v updates s n) [
          | inl (all, stays) ↦
              inl ((input_equal-IsStored v i a s same, all), ground (arith, same, stays))
          | inr (some_differ, moves) ↦ inr ((λ all. some_differ all.1), ground (arith, same, moves))
        ]
        | inr differs ↦
            inr ((λ all. cc (differs, IsStored-input_equal v i a s all.0)), ground (arith, differs))
      ]

  -- Where a batch is accepted, the revision stays if each input of the batch has a stored value that
  -- its policy finds equal to the new one, and moves by one if not, however many inputs have changed.
  pub set_many-revision :
      (v : Values S) (updates : List (Input S × S)) (s : Database S)
      → (set_many v updates s).0 ≡ ok tt
      → (All (IsStored v s) updates × ((set_many v updates s).1.revision ≡ s.revision))
        ⊎ (¬ All (IsStored v s) updates × ((set_many v updates s).1.revision ≡ s.revision + 1))
  unfolding set_many
  set_many-revision v updates s accepted = elim (Bool-cases (inside s.execution_stack)) [
    | inl running ↦ absurd (ground (arith, running, accepted))
    | inr outside ↦ elim (Option-cases (validate updates [] s)) [
      | inl valid ↦
          let written : (set_many v updates s).1.revision
              ≡ next_revision (changed_updates (decisions v updates s)) s.revision =
            ground (arith, outside, valid, write_many-revision (decisions v updates s) s) in
          elim (decisions-revision v updates s s.revision) [
            | inl (all, stays) ↦ inl (all, written ∙ stays)
            | inr (some_differ, moves) ↦ inr (some_differ, written ∙ moves)
          ]
      | inr (e, refused) ↦ absurd (ground (arith, outside, refused, accepted))
    ]
  ]
