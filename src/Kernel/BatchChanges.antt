-- ===== src/Kernel/BatchChanges.antt =====
-- runtime.py, `set_many` between requests: the invariant through the changed updates of a batch,
-- all at one revision.
use pyinc.Prelude.{ℕ, ◌+◌, ◌≡◌, refl, sym, List, [], ◌∷◌, arith, All, String}
use mathlib.Core.Path.{subst}
use pyinc.Kernel.Program.{Program}
use pyinc.Kernel.Node.{NodeKey}
use pyinc.Kernel.State.{NodeRecord, Database}
use pyinc.Kernel.Inputs.{apply_change}
use pyinc.Kernel.Batch.{Update, apply_changes, bump}
use pyinc.Kernel.Fresh.{World, Rank}
use pyinc.Kernel.Invariant.{QueryOk}
use pyinc.Kernel.Run.{IsInv}
use pyinc.Kernel.Evict.{IsIdle}
use pyinc.Kernel.Serving.{IsServing, IsRegistered}
use pyinc.Kernel.SetInput.{update}
use pyinc.Kernel.SetSteps.{moved, IsSettled, apply_change-IsInv, apply_change-IsSettled}
use pyinc.Kernel.BatchPhases.{IsNamed, AllRegistered, AllRegistered-same}

-- The world after each of the updates.
unfoldable pub update_each : {S : Type 0} → List (Update S) → World S → World S
update_each [] w = w
update_each (u ∷ us) w = update_each us (update w u.handle.key u.snapshot)

module _ {S : Type 0} (p : Program S) (rank : Rank) (digests : String → String) where
  -- The state in the midst of the changes, at the revision after `top`.
  record Changing (W : ℕ → World S) (base top : ℕ) (s : Database S) : Type 0 where
    kept : IsInv p rank digests W base s
    idle : IsIdle s
    now : s.revision ≡ top + 1
    settled : IsSettled top s

  apply_change-Changing :
      (W : ℕ → World S) (base top : ℕ) (u : Update S) (s : Database S)
      → Changing W base top s
      → IsNamed p rank digests u
      → IsRegistered u.handle.key s
      → Changing
          (moved W (W base) u.handle.key u.snapshot top)
          (top + 1)
          top
          (apply_change u.node_key u.snapshot u.digest s)
  unfolding apply_change
  apply_change-Changing W base top u s h named registered =
      subst
        (λ k.
          Changing (moved W (W base) u.handle.key u.snapshot top) (top + 1) top
            (apply_change k u.snapshot u.digest s))
        (sym named.0)
        (record {
          kept =
              apply_change-IsInv p rank digests W base u.handle.key u.snapshot u.digest s h.kept
                h.idle registered top h.now h.settled;
          idle = h.idle;
          now = h.now;
          settled =
              apply_change-IsSettled p rank digests W base u.handle.key u.snapshot u.digest s h.kept
                h.idle registered top h.now h.settled;
        })

  apply_change-input_records :
      (u : Update S) (s : Database S)
      → (apply_change u.node_key u.snapshot u.digest s).input_records ≡ s.input_records
  unfolding apply_change
  apply_change-input_records u s = refl

  apply_changes-IsServing :
      (us : List (Update S)) (W : ℕ → World S) (base top : ℕ) (s : Database S)
      → Changing W base top s
      → All (IsNamed p rank digests) us
      → AllRegistered us s
      → IsServing p rank digests (update_each us (W base)) (apply_changes us s)
  unfolding apply_changes update_each
  apply_changes-IsServing [] W base top s h named registered = (W, base, refl, h.kept, h.idle)
  apply_changes-IsServing (u ∷ us) W base top s h (n, named) (r, registered) =
      let t = apply_change u.node_key u.snapshot u.digest s in
      let W' = moved W (W base) u.handle.key u.snapshot top in
      let arrived : W' (top + 1) ≡ update (W base) u.handle.key u.snapshot = ground arith in
      subst (λ w. IsServing p rank digests (update_each us w) (apply_changes us t)) arrived
        (apply_changes-IsServing us W' (top + 1) top t (apply_change-Changing W base top u s h n r)
          named (AllRegistered-same us s t (apply_change-input_records u s) registered))

  module _ (W : ℕ → World S) (base : ℕ) (s : Database S) (inv : IsInv p rank digests W base s)
      (idle : IsIdle s) where
    abbrev advanced : Database S
    advanced = record s { revision = s.revision + 1 }

    advanced-QueryOk :
        (k : NodeKey) (r : NodeRecord S)
        → QueryOk p rank digests W base s.revision s.request_counter s.request k r
        → QueryOk p rank digests W base (s.revision + 1) s.request_counter s.request k r
    advanced-QueryOk k r h = record {
      verified = omega (arith, h.verified);
      current = h.current;
      asked = h.asked;
      was_asked = h.was_asked;
      digested = h.digested;
      lower = h.lower;
      covers = h.covers;
    }

    advanced-Changing : Changing W base s.revision advanced
    advanced-Changing = record {
      kept = record {
        started = omega (arith, inv.started);
        still = inv.still;
        queries = λ k r e found.
            let (h, edges) = inv.queries k r e found in (advanced-QueryOk k r h, edges);
        inputs = inv.inputs;
        plain = inv.plain;
        registered = inv.registered;
        names = inv.names;
        evictable = inv.evictable;
        open_request = inv.open_request;
        policies = inv.policies;
      };
      idle = idle;
      now = refl;
      settled = λ j q e found. (inv.queries j q e found).0.verified;
    }

    pub bump-IsServing :
        (us : List (Update S))
        → All (IsNamed p rank digests) us
        → AllRegistered us s
        → IsServing p rank digests (update_each us (W base)) (bump us s)
    unfolding bump update_each
    bump-IsServing [] named registered = (W, base, refl, inv, idle)
    bump-IsServing (u ∷ us) named registered =
        apply_changes-IsServing (u ∷ us) W base s.revision advanced advanced-Changing named
          registered
