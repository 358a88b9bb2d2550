-- ===== src/Kernel/SetSteps.antt =====
-- runtime.py, `set` and `set_many` between requests: the invariant through one record that is
-- written, for an equal value and for a changed one.
use text.Mathlib.Text.{◌==◌ as str_eq}
use text.Mathlib.TextEquality.{eq_iff}
use pyinc.Prelude.{
  ℕ, ◌+◌, ◌≤◌, ◌≡◌, refl, sym, ◌∙◌, ap, some, some_eq, String, arith, Bool-cases, Option-cases, inl,
  inr, if◌then◌else◌, leb,
}
use native.Mathlib.Nat.{le_refl}
use mathlib.Core.Path.{fun_ext}
use pyinc.Assoc.{find, put}
use pyinc.Kernel.Node.{Kind, NodeKey, node_keys, prospective_input_key}
use pyinc.Kernel.Program.{ok, Program}
use pyinc.Kernel.State.{NodeRecord, Database, get_record, reused}
use pyinc.Kernel.Inputs.{ignore_equal, changed_record, apply_change}
use pyinc.Kernel.Fresh.{World, Rank}
use pyinc.Kernel.Invariant.{Core, core}
use pyinc.Kernel.Run.{IsInv}
use pyinc.Kernel.Evict.{IsIdle}
use pyinc.Kernel.Serving.{IsRegistered}
use pyinc.Kernel.SetInput.{update, update_self, update_other, Stores, set-Inv, found_query}

-- Setting the value that an input has leaves the world as it is.
pub update_same :
    {S : Type 0} (w : World S) (key : String) (a : S) → w key ≡ some a → update w key a ≡ w
update_same w key a h = fun_ext (λ j. elim (Bool-cases (str_eq key j)) [
  | inl same ↦ update_self w key a j same ∙ sym h ∙ ap w ((eq_iff key j).0 same)
  | inr other ↦ update_other w key a j other
])

-- The worlds after a change at the revision after `top`, in the world `w`.
abbrev pub moved : {S : Type 0} → (ℕ → World S) → World S → String → S → ℕ → ℕ → World S
moved W w key a top v = if leb v top then W v else update w key a

-- No record of a query is newer than `top`.
abbrev pub IsSettled : {S : Type 0} → ℕ → Database S → Type 0
IsSettled {S} top t =
    (j : NodeKey) (q : NodeRecord S)
    → j.kind ≡ Kind.query
    → find node_keys j t.records ≡ some q
    → q.verified_at ≤ top

module _ {S : Type 0} (p : Program S) (rank : Rank) (digests : String → String) (W : ℕ → World S)
    (base : ℕ) (key : String) (a : S) (d : String) (s : Database S)
    (inv : IsInv p rank digests W base s) (idle : IsIdle s) (registered : IsRegistered key s) where
  abbrev k : NodeKey
  k = prospective_input_key key

  k_input : k.kind ≡ Kind.input
  unfolding prospective_input_key
  k_input = refl

  k_identity : k.identity ≡ key
  unfolding prospective_input_key
  k_identity = refl

  -- The state after an equal update.
  module _ (current : W base key ≡ some a) (r : NodeRecord S)
      (found : get_record k s ≡ some r) where
    abbrev ignored : NodeRecord S
    ignored = record r {
      snapshot = a;
      digest = d;
      verified_at = s.revision;
      last_decision = reused;
      reason = "equal input update ignored";
      checked_in_request = s.request;
    }

    same_value : r.snapshot ≡ a
    same_value = some_eq (sym (inv.inputs k r k_input found) ∙ ap (W base) k_identity ∙ current)

    ignored_stores :
        Stores p rank digests W W base base
          (core s)
          (core (record s { records = put node_keys k ignored s.records }))
          key
          a
          ignored
          s.revision
          inv
          idle.0
    ignored_stores = record {
      stored = refl;
      requests = (refl, refl);
      query_records = refl;
      revisions = (le_refl s.revision, inv.started);
      value_of = refl;
      before = λ v le. refl;
      after = λ v le. inv.still v le ∙ sym (update_same (W base) key a current);
      settled = λ j q e at. (inv.queries j q e at).0.verified;
      steps = λ v le edge at. edge r found at ∙ ap ok same_value;
      key_registered = registered;
      others_registered = λ j e. refl;
      handles = inv.policies;
    }

    ignored-IsInv :
        IsInv p rank digests W base (record s { records = put node_keys k ignored s.records })
    ignored-IsInv =
        set-Inv p rank digests W W base base (core s)
          (core (record s { records = put node_keys k ignored s.records })) key a ignored s.revision
          inv idle.0 ignored_stores

  pub ignore_equal-IsInv : W base key ≡ some a → IsInv p rank digests W base (ignore_equal k a d s)
  unfolding ignore_equal
  ignore_equal-IsInv current = elim (Option-cases (get_record k s)) [
    | inl missing ↦ rw (missing, ignore_equal) inv
    | inr (r, found) ↦ rw (found, ignore_equal) (ignored-IsInv current r found)
  ]

  pub ignore_equal-input_records : (ignore_equal k a d s).input_records ≡ s.input_records
  unfolding ignore_equal
  ignore_equal-input_records = elim (Option-cases (get_record k s)) [
    | inl missing ↦ ground (arith, missing)
    | inr (r, found) ↦ ground (arith, found)
  ]

  pub ignore_equal-IsIdle : IsIdle (ignore_equal k a d s)
  unfolding ignore_equal
  ignore_equal-IsIdle = elim (Option-cases (get_record k s)) [
    | inl missing ↦ rw (missing, ignore_equal) idle
    | inr (r, found) ↦ rw (found, ignore_equal) idle
  ]

  module _ (top : ℕ) where
    abbrev worlds : ℕ → World S
    worlds = moved W (W base) key a top

    moved-before : (v : ℕ) → v ≤ top → worlds v ≡ W v
    moved-before v le = ground arith

    moved-after : (v : ℕ) → top + 1 ≤ v → worlds v ≡ update (W base) key a
    moved-after v le = ground arith

    abbrev new_record : NodeRecord S
    new_record = changed_record (get_record k s) a d s.revision s.request

    new_snapshot : new_record.snapshot ≡ a
    unfolding changed_record
    new_snapshot = elim (Option-cases (get_record k s)) [
      | inl new ↦ ground (arith, new)
      | inr (r, old) ↦ ground (arith, old)
    ]

    new_changed_at : new_record.changed_at ≡ s.revision
    unfolding changed_record
    new_changed_at = elim (Option-cases (get_record k s)) [
      | inl new ↦ ground (arith, new)
      | inr (r, old) ↦ ground (arith, old)
    ]

    module _ (now : s.revision ≡ top + 1) (settled : IsSettled top s) where
      abbrev changed : Core S
      changed = record (core s) { records = put node_keys k new_record s.records }

      changed_stores :
          Stores p rank digests W worlds base
            (top + 1)
            (core s)
            changed
            key
            a
            new_record
            top
            inv
            idle.0
      changed_stores = record {
        stored = refl;
        requests = (refl, refl);
        query_records = refl;
        revisions = (le_refl s.revision, omega (arith, now));
        value_of = new_snapshot;
        before = moved-before;
        after = moved-after;
        settled = settled;
        steps = λ v le edge at. absurd (omega (arith, new_changed_at, now));
        key_registered = registered;
        others_registered = λ j e. refl;
        handles = inv.policies;
      }

      pub apply_change-IsInv : IsInv p rank digests worlds (top + 1) (apply_change k a d s)
      unfolding apply_change
      apply_change-IsInv =
          set-Inv p rank digests W worlds base (top + 1) (core s) changed key a new_record top inv
            idle.0 changed_stores

      pub apply_change-IsSettled : IsSettled top (apply_change k a d s)
      unfolding apply_change
      apply_change-IsSettled j q e found = settled j q e (
          found_query p rank digests W worlds base (top + 1) (core s) changed key a new_record top
            inv idle.0 changed_stores j q e found)
