-- ===== src/Kernel/BatchPhases.antt =====
-- runtime.py, `set_many` between requests: the invariant through the phases of a batch's commit.
use pyinc.Prelude.{
  ℕ, ◌≡◌, refl, sym, ◌∙◌, ap, true, some, List, [], ◌∷◌, String, All, All-map, Bool-cases, inl, inr,
}
use mathlib.Core.Path.{subst}
use pyinc.Assoc.{find}
use pyinc.Kernel.Node.{prospective_input_key}
use pyinc.Kernel.Program.{Program}
use pyinc.Kernel.State.{Database}
use pyinc.Kernel.Inputs.{commit_input_registration, ignore_equal}
use pyinc.Kernel.Batch.{Update, commit_registrations, ignore_updates}
use pyinc.Kernel.Fresh.{World, Rank}
use pyinc.Kernel.Run.{IsInv}
use pyinc.Kernel.Evict.{IsIdle}
use pyinc.Kernel.Serving.{IsRegistered, commit_input_registration-Registers}
use pyinc.Kernel.SetSteps.{ignore_equal-IsInv, ignore_equal-IsIdle, ignore_equal-input_records}

-- An equal update has the value of the world.
abbrev pub IsCurrent : {S : Type 0} → World S → Update S → Type 0
IsCurrent w u = u.equal ≡ true → w u.handle.key ≡ some u.snapshot

abbrev pub AllRegistered : {S : Type 0} → List (Update S) → Database S → Type 0
AllRegistered us s = All (λ u. IsRegistered u.handle.key s) us

pub AllRegistered-same :
    {S : Type 0} (us : List (Update S)) (s t : Database S)
    → t.input_records ≡ s.input_records
    → AllRegistered us s
    → AllRegistered us t
AllRegistered-same us s t e =
    All-map (λ u. IsRegistered u.handle.key s) (λ u. IsRegistered u.handle.key t) us
      (λ u h. ap (λ m. find pyinc.Assoc.string_keys u.handle.key m) e ∙ h)

module _ {S : Type 0} (p : Program S) (rank : Rank) (digests : String → String) where
  -- The node of an update is that of its handle, which has the policy of its key.
  abbrev pub IsNamed : Update S → Type 0
  IsNamed u =
      (u.node_key ≡ prospective_input_key u.handle.key)
      × (u.handle.policy_digest ≡ digests u.handle.key)

  module _ (W : ℕ → World S) (base : ℕ) where
    pub record Entered (us : List (Update S)) (s t : Database S) : Type 0 where
      pub kept : IsInv p rank digests W base t
      pub idle : IsIdle t
      pub others : (j : String) → IsRegistered j s → IsRegistered j t
      pub these : AllRegistered us t

    pub commit_registrations-Entered :
        (us : List (Update S)) (s : Database S)
        → IsInv p rank digests W base s
        → IsIdle s
        → All IsNamed us
        → Entered us s (commit_registrations us s)
    unfolding commit_registrations
    commit_registrations-Entered [] s inv idle named = record {
      kept = inv;
      idle = idle;
      others = λ j h. h;
      these = tt;
    }
    commit_registrations-Entered (u ∷ us) s inv idle (named, rest) =
        let first =
          commit_input_registration-Registers p rank digests W base u.handle s inv named.1 in
        let h =
          commit_registrations-Entered us (commit_input_registration u.handle s) first.kept
            (first.idle idle) rest in
        record {
          kept = h.kept;
          idle = h.idle;
          others = λ j old. h.others j (first.others j old);
          these = (h.others u.handle.key first.this, h.these);
        }

    -- The state after the equal updates.
    pub record Ignored (s t : Database S) : Type 0 where
      pub kept : IsInv p rank digests W base t
      pub idle : IsIdle t
      pub registries : t.input_records ≡ s.input_records

    ignore_equal-Ignored :
        (u : Update S) (s : Database S)
        → IsInv p rank digests W base s
        → IsIdle s
        → IsNamed u
        → W base u.handle.key ≡ some u.snapshot
        → IsRegistered u.handle.key s
        → Ignored s (ignore_equal u.node_key u.snapshot u.digest s)
    ignore_equal-Ignored u s inv idle named current registered =
        subst (λ k. Ignored s (ignore_equal k u.snapshot u.digest s)) (sym named.0)
          (record {
            kept =
                ignore_equal-IsInv p rank digests W base u.handle.key u.snapshot u.digest s inv idle
                  registered current;
            idle =
                ignore_equal-IsIdle p rank digests W base u.handle.key u.snapshot u.digest s inv
                  idle registered;
            registries =
                ignore_equal-input_records p rank digests W base u.handle.key u.snapshot u.digest s
                  inv idle registered;
          })

    pub ignore_updates-Ignored :
        (us : List (Update S)) (s : Database S)
        → IsInv p rank digests W base s
        → IsIdle s
        → All IsNamed us
        → All (IsCurrent (W base)) us
        → AllRegistered us s
        → Ignored s (ignore_updates us s)
    unfolding ignore_updates
    ignore_updates-Ignored [] s inv idle named current registered = record {
      kept = inv;
      idle = idle;
      registries = refl;
    }
    ignore_updates-Ignored (u ∷ us) s inv idle (n, named) (c, current) (r, registered) =
        elim (Bool-cases u.equal) [
          | inl same ↦
              let first = ignore_equal-Ignored u s inv idle n (c same) r in
              let t = ignore_equal u.node_key u.snapshot u.digest s in
              let h =
                ignore_updates-Ignored us t first.kept first.idle named current
                  (AllRegistered-same us s t first.registries registered) in
              rw same (record {
                kept = h.kept;
                idle = h.idle;
                registries = h.registries ∙ first.registries;
              })
          | inr differs ↦ rw differs (ignore_updates-Ignored us s inv idle named current registered)
        ]
