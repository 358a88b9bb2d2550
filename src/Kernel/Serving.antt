-- ===== src/Kernel/Serving.antt =====
-- The state between requests, the world in which several inputs have other values, and the
-- registration of an input, which `set` and `set_many` share.
use text.Mathlib.Text.{◌==◌ as str_eq}
use text.Mathlib.TextEquality.{eq_iff}
use pyinc.Prelude.{
  ℕ, ◌≡◌, sym, ◌∙◌, ap, some, List, [], ◌∷◌, String, arith, Bool-cases, Option-cases, inl, inr,
}
use pyinc.Assoc.{find, put, find-put_cases, find-put_self, find-put_other, string_keys}
use pyinc.Kernel.Node.{NodeKey, prospective_input_key}
use pyinc.Kernel.Program.{Input, Program}
use pyinc.Kernel.State.{Database}
use pyinc.Kernel.Inputs.{input_node_key, commit_input_registration}
use pyinc.Kernel.Fresh.{World, Rank}
use pyinc.Kernel.Run.{IsInv}
use pyinc.Kernel.Evict.{IsIdle}
use pyinc.Kernel.SetInput.{update}

-- The world in which each pair's input has its value, the later pair's where two have one key.
unfoldable pub update_all : {S : Type 0} → List (Input S × S) → World S → World S
update_all [] w = w
update_all ((i, a) ∷ updates) w = update_all updates (update w i.key a)

-- `key` is registered, under the node of that name.
abbrev pub IsRegistered : {S : Type 0} → String → Database S → Type 0
IsRegistered key s = find string_keys key s.input_records ≡ some (prospective_input_key key)

module _ {S : Type 0} (p : Program S) (rank : Rank) (digests : String → String) where
  -- The database is between requests, in the world `w`, with an invariant that its records of the
  -- past satisfy.
  abbrev pub IsServing : World S → Database S → Type 0
  IsServing w s =
      (W : ℕ → World S) × (base : ℕ) × (W base ≡ w) × IsInv p rank digests W base s × IsIdle s

  module _ (W : ℕ → World S) (base : ℕ) (i : Input S) (s : Database S)
      (inv : IsInv p rank digests W base s) where
    pub input_node_key_lem : input_node_key i s ≡ prospective_input_key i.key
    unfolding input_node_key
    input_node_key_lem = elim (Option-cases (find string_keys i.key s.input_records)) [
      | inl new ↦ ground (arith, new)
      | inr (n, old) ↦ ground (arith, old, inv.names i.key n old)
    ]

    abbrev k : NodeKey
    k = prospective_input_key i.key

    -- The state with a new registration.
    abbrev entered : Database S
    entered = record s {
      input_records = put string_keys i.key k s.input_records;
      inputs_by_key = put string_keys i.key i s.inputs_by_key;
    }

    entered-names :
        (j : String) (n : NodeKey)
        → find string_keys j entered.input_records ≡ some n
        → n ≡ prospective_input_key j
    entered-names j n found = elim (find-put_cases string_keys i.key j k n s.input_records found) [
      | inl (same, e) ↦ sym e ∙ ap prospective_input_key ((eq_iff i.key j).0 same)
      | inr (other, old) ↦ inv.names j n old
    ]

    entered-policies :
        i.policy_digest ≡ digests i.key
        → (j : String) (h : Input S) → find string_keys j entered.inputs_by_key ≡ some h
        → h.policy_digest ≡ digests j
    entered-policies digest j h found =
        elim (find-put_cases string_keys i.key j i h s.inputs_by_key found) [
          | inl (same, e) ↦
              sym (ap (λ (x : Input S). x.policy_digest) e)
              ∙ digest
              ∙ ap digests ((eq_iff i.key j).0 same)
          | inr (other, old) ↦ inv.policies j h old
        ]

    entered-keeps : (j : String) → IsRegistered j s → IsRegistered j entered
    entered-keeps j h = elim (Bool-cases (str_eq i.key j)) [
      | inl same ↦
          ap (λ x. find string_keys x entered.input_records) (sym ((eq_iff i.key j).0 same))
          ∙ find-put_self string_keys i.key k s.input_records
          ∙ ap (λ x. some (prospective_input_key x)) ((eq_iff i.key j).0 same)
      | inr other ↦ find-put_other string_keys i.key j k s.input_records other ∙ h
    ]

    entered-IsInv : i.policy_digest ≡ digests i.key → IsInv p rank digests W base entered
    entered-IsInv digest = record {
      started = inv.started;
      still = inv.still;
      queries = inv.queries;
      inputs = inv.inputs;
      plain = inv.plain;
      evictable = inv.evictable;
      open_request = inv.open_request;
      registered = λ j v set.
          let (reg, r, found) = inv.registered j v set in (entered-keeps j reg, r, found);
      names = entered-names;
      policies = entered-policies digest;
    }

    -- A registration keeps the invariant and every registration.
    pub record Registers (after : Database S) : Type 0 where
      pub kept : IsInv p rank digests W base after
      pub idle : IsIdle s → IsIdle after
      pub this : IsRegistered i.key after
      pub others : (j : String) → IsRegistered j s → IsRegistered j after

    pub commit_input_registration-Registers :
        i.policy_digest ≡ digests i.key → Registers (commit_input_registration i s)
    unfolding commit_input_registration
    commit_input_registration-Registers digest =
        elim (Option-cases (find string_keys i.key s.input_records)) [
          | inl new ↦ rw new (record {
            kept = entered-IsInv digest;
            idle = λ h. h;
            this = find-put_self string_keys i.key k s.input_records;
            others = entered-keeps;
          })
          | inr (n, old) ↦ rw old (record {
            kept = inv;
            idle = λ h. h;
            this = old ∙ ap some (inv.names i.key n old);
            others = λ j h. h;
          })
        ]
