-- ===== src/Kernel/BatchServed.antt =====
-- runtime.py, `set_many` and `set` between requests: what a batch returns and leaves.

use pyinc.Prelude.{
  ℕ, ◌≡◌, refl, sym, ◌∙◌, ap, true, none, some, List, [], ◌∷◌, String, arith, All, Bool-cases,
  Option-cases, inl, inr,
}
use mathlib.Core.Path.{subst}
use pyinc.Kernel.Node.{prospective_input_key}
use pyinc.Kernel.Program.{input_key_error, Outcome, ok, raise, Input, compare_values, Program}
use pyinc.Kernel.State.{Database, get_record}
use pyinc.Kernel.Inputs.{inside, input_equal, set}
use pyinc.Kernel.Batch.{
  seen, validate, decisions, changed_updates, ignore_updates, commit_registrations, count_ignores,
  equal_count, write_many, set_many,
}
use pyinc.Kernel.BatchOne.{set_many-set}
use pyinc.Kernel.Fresh.{World, Rank}
use pyinc.Kernel.Run.{IsInv, no_conflict}
use pyinc.Kernel.Evict.{IsIdle}
use pyinc.Kernel.Serving.{update_all, IsServing, input_node_key_lem, IsRegistered}
use pyinc.Kernel.SetInput.{update}
use pyinc.Kernel.BatchPhases.{
  IsNamed, IsCurrent, AllRegistered-same, commit_registrations-Entered, ignore_updates-Ignored,
}
use pyinc.Kernel.BatchChanges.{bump-IsServing}
use pyinc.Kernel.BatchWorld.{
  repeated, refusal, update_each-changed, update_each-update_all, changed_updates-All,
}

module _ {S : Type 0} (p : Program S) (rank : Rank) (digests : String → String) where
  -- The handle has the policy of its key, and that policy tells different values apart.
  abbrev pub IsHandled : Input S → Type 0
  IsHandled i =
      (i.policy_digest ≡ digests i.key)
      × ((x y : S) → compare_values p.values i.policy x y ≡ true → x ≡ y)

  module _ (W : ℕ → World S) (base : ℕ) (s : Database S) (inv : IsInv p rank digests W base s)
      (idle : IsIdle s) where
    decisions-IsNamed :
        (updates : List (Input S × S))
        → All (λ u. IsHandled u.0) updates
        → All (IsNamed p rank digests) (decisions p.values updates s)
    unfolding decisions
    decisions-IsNamed [] handled = tt
    decisions-IsNamed ((i, a) ∷ updates) (h, handled) =
        ((input_node_key_lem p rank digests W base i s inv, h.0), decisions-IsNamed updates handled)

    -- What compares equal with the stored value is the world's.
    input_equal-value :
        (i : Input S) (a : S)
        → IsHandled i
        → input_equal p.values i a (get_record (prospective_input_key i.key) s) ≡ true
        → W base i.key ≡ some a
    unfolding input_equal prospective_input_key
    input_equal-value i a h equal =
        elim (Option-cases (get_record (prospective_input_key i.key) s)) [
          | inl missing ↦ absurd (ground (arith, missing, equal))
          | inr (r, found) ↦
              inv.inputs (prospective_input_key i.key) r refl found
              ∙ ap some (h.1 r.snapshot a (sym (ap (input_equal p.values i a) found) ∙ equal))
        ]

    decisions-IsCurrent :
        (updates : List (Input S × S))
        → All (λ u. IsHandled u.0) updates
        → All (IsCurrent (W base)) (decisions p.values updates s)
    unfolding decisions
    decisions-IsCurrent [] handled = tt
    decisions-IsCurrent ((i, a) ∷ updates) (h, handled) = (
      (λ equal. input_equal-value i a h (
          ap (λ k. input_equal p.values i a (get_record k s))
            (sym (input_node_key_lem p rank digests W base i s inv))
          ∙ equal)),
      decisions-IsCurrent updates handled,
    )

    validate-repeated :
        (updates : List (Input S × S)) (keys : List String)
        → All (λ u. IsHandled u.0) updates
        → validate updates keys s ≡ refusal (repeated updates keys)
    unfolding validate repeated
    validate-repeated [] keys handled = refl
    validate-repeated ((i, a) ∷ updates) keys (h, handled) =
        let rest = validate-repeated updates (i.key ∷ keys) handled in
        let free = no_conflict p rank digests W base i s inv h.0 in
        elim (Bool-cases (seen i.key keys)) [
          | inl again ↦ ground (arith, again)
          | inr fresh ↦ ground (arith, fresh, free, rest)
        ]

    module _ (updates : List (Input S × S)) (handled : All (λ u. IsHandled u.0) updates)
        (distinct : repeated updates [] ≡ none) where
      write_many-IsServing :
          IsServing p rank digests
            (update_all updates (W base))
            (write_many (decisions p.values updates s) s)
      unfolding write_many count_ignores
      write_many-IsServing =
          let us = decisions p.values updates s in
          let named = decisions-IsNamed updates handled in
          let current = decisions-IsCurrent updates handled in
          let entered = commit_registrations-Entered p rank digests W base us s inv idle named in
          let t = commit_registrations us s in
          let ignored =
            ignore_updates-Ignored p rank digests W base us t entered.kept entered.idle named
              current entered.these in
          let moved = update_each-changed p.values s updates [] (W base) distinct current in
          subst (λ w. IsServing p rank digests w (write_many us s))
            (moved ∙ update_each-update_all p.values s updates (W base))
            (bump-IsServing p rank digests W base
              (count_ignores (equal_count us) (ignore_updates us t)) ignored.kept ignored.idle
              (changed_updates us) (changed_updates-All (IsNamed p rank digests) us named)
              (changed_updates-All (λ u. IsRegistered u.handle.key (ignore_updates us t)) us
                (AllRegistered-same us t (ignore_updates us t) ignored.registries entered.these)))

      set_many-valid :
          set_many p.values updates s ≡ (ok tt, write_many (decisions p.values updates s) s)
      unfolding set_many inside
      set_many-valid =
          ground
            (arith, ap inside idle.1, validate-repeated updates [] handled ∙ ap refusal distinct)

    -- A batch with a repeated key is refused as a whole.
    pub set_many-refused :
        (updates : List (Input S × S)) (key : String)
        → All (λ u. IsHandled u.0) updates
        → repeated updates [] ≡ some key
        → set_many p.values updates s ≡ (raise (input_key_error key), s)
    unfolding set_many inside
    set_many-refused updates key handled again =
        ground (arith, ap inside idle.1, validate-repeated updates [] handled ∙ ap refusal again)

    -- The result of a batch without a repeated key, and the state that it leaves.
    pub record Written (w : World S) (result : Outcome (Unit {0}) × Database S) : Type 0 where
      pub after : Database S
      pub returns : result ≡ (ok tt, after)
      pub serving : IsServing p rank digests w after

    pub set_many-Written :
        (updates : List (Input S × S))
        → All (λ u. IsHandled u.0) updates
        → repeated updates [] ≡ none
        → Written (update_all updates (W base)) (set_many p.values updates s)
    set_many-Written updates handled distinct = record {
      after = write_many (decisions p.values updates s) s;
      returns = set_many-valid updates handled distinct;
      serving = write_many-IsServing updates handled distinct;
    }

    pub set-Written :
        (i : Input S) (a : S) → IsHandled i → Written (update (W base) i.key a) (set p.values i a s)
    unfolding repeated update_all inside
    set-Written i a h =
        let r = set_many-Written ((i, a) ∷ []) (h, tt) refl in
        record {
          after = r.after;
          returns = sym (set_many-set p.values i a s (ap inside idle.1)) ∙ r.returns;
          serving = r.serving;
        }
