-- ===== src/Kernel/SetRead.antt =====
-- runtime.py, `set` and `read_input`: what a `set` writes and what a read finds after it.

use mathlib.Core.Path.{subst}
use pyinc.Prelude.{
  ℕ, ◌+◌, ◌≡◌, refl, sym, ◌∙◌, ap, true, false, Bool-cases, Option, none, some, Option-cases,
  String, List, arith, inl, inr, if◌then◌else◌, ◌||◌,
}
use pyinc.Assoc.{find, put, find-put_self, find-put_other, string_keys, string_refl}
use pyinc.Kernel.Node.{NodeKey, node_keys, same_key, prospective_input_key}
use pyinc.Kernel.Program.{ok, Input, Values}
use pyinc.Kernel.State.{NodeRecord, Database, get_record, Stats, reused}
use pyinc.Kernel.Verify.{policy_conflict, read_input}
use pyinc.Kernel.Inputs.{
  inside, set, write_input, input_node_key, input_equal, ignore_equal, changed_record, apply_change,
  commit_input_registration,
}

module _ {S : Type 0} (v : Values S) (i : Input S) (a : S) (s : Database S) where
  abbrev k : NodeKey
  k = input_node_key i s

  changed-snapshot :
      (o : Option (NodeRecord S)) (d : String) (n : ℕ) (q : Option ℕ)
      → (changed_record o a d n q).snapshot ≡ a
  unfolding changed_record
  changed-snapshot none d n q = refl
  changed-snapshot (some r) d n q = refl

  -- What a `set` that is not refused writes.
  record Written (s' : Database S) : Type 0 where
    found : NodeRecord S
    stored : get_record k s' ≡ some found
    snapshot : found.snapshot ≡ a
    named : find string_keys i.key s'.input_records ≡ some k
    allowed : policy_conflict i s' ≡ false
    revision :
        s'.revision ≡ (if input_equal v i a (get_record k s) then s.revision else s.revision + 1)
    others : (j : NodeKey) → same_key k j ≡ false → get_record j s' ≡ get_record j s

  registers :
      policy_conflict i s ≡ false
      → (find string_keys i.key (commit_input_registration i s).input_records ≡ some k)
        × (policy_conflict i (commit_input_registration i s) ≡ false)
  unfolding commit_input_registration input_node_key policy_conflict
  registers free = elim (Option-cases (find string_keys i.key s.input_records)) [
    | inl new ↦ ground (
      arith,
      new,
      find-put_self string_keys i.key (prospective_input_key i.key) s.input_records,
      find-put_self string_keys i.key i s.inputs_by_key,
      string_refl i.policy_digest,
    )
    | inr (n, old) ↦ ground (arith, old, free)
  ]

  -- The registries after the `set`, and a record for the input, make all of it.
  writes :
      (s' : Database S) (r : NodeRecord S)
      → policy_conflict i s ≡ false
      → s'.records ≡ put node_keys k r s.records
      → s'.input_records ≡ (commit_input_registration i s).input_records
      → s'.inputs_by_key ≡ (commit_input_registration i s).inputs_by_key
      → r.snapshot ≡ a
      → s'.revision ≡ (if input_equal v i a (get_record k s) then s.revision else s.revision + 1)
      → Written s'
  unfolding policy_conflict
  writes s' r free records names handles value revision = record {
    found = r;
    stored = ap (find node_keys k) records ∙ find-put_self node_keys k r s.records;
    snapshot = value;
    named = ap (find string_keys i.key) names ∙ (registers free).0;
    allowed = ground (arith, handles, (registers free).1);
    revision = revision;
    others =
        λ j other. ap (find node_keys j) records ∙ find-put_other node_keys k j r s.records other;
  }

  -- The state with the registries `names` and `handles`, and `r` as the input's record.
  abbrev with_input :
      List (String × NodeKey) → List (String × Input S) → NodeRecord S → ℕ → Stats → Database S
  with_input names handles r revision stats = record s {
    revision = revision;
    records = put node_keys k r s.records;
    input_records = names;
    inputs_by_key = handles;
    stats = stats;
  }

  module _ (names : List (String × NodeKey)) (handles : List (String × Input S))
      (committed : commit_input_registration i s
        ≡ record s { input_records = names; inputs_by_key = handles })
      (free : policy_conflict i s ≡ false) where
    abbrev digest : String
    digest = v.fingerprint_snapshot a

    abbrev input_records : (commit_input_registration i s).input_records ≡ names
    input_records = ap (λ (x : Database S). x.input_records) committed

    abbrev inputs_by_key : (commit_input_registration i s).inputs_by_key ≡ handles
    inputs_by_key = ap (λ (x : Database S). x.inputs_by_key) committed

    write-changed : input_equal v i a (get_record k s) ≡ false → Written (write_input v i a s)
    unfolding write_input apply_change
    write-changed differs =
        let r = changed_record (get_record k s) a digest (s.revision + 1) s.request in
        let s' =
          with_input names handles r (s.revision + 1)
            (record s.stats { input_sets = s.stats.input_sets + 1 }) in
        let same : write_input v i a s ≡ s' = ground (arith, differs, committed) in
        subst Written (sym same) (
          writes s' r free refl (sym input_records) (sym inputs_by_key)
            (changed-snapshot (get_record k s) digest (s.revision + 1) s.request)
            (ground (arith, differs)))

    write-equal :
        (r : NodeRecord S)
        → get_record k s ≡ some r
        → input_equal v i a (get_record k s) ≡ true
        → Written (write_input v i a s)
    unfolding write_input ignore_equal
    write-equal r found equal =
        let r' = record r {
          snapshot = a;
          digest = digest;
          verified_at = s.revision;
          last_decision = reused;
          reason = "equal input update ignored";
          checked_in_request = s.request;
        } in
        let s' =
          with_input names handles r' s.revision
            (record s.stats { input_equal_ignores = s.stats.input_equal_ignores + 1 }) in
        let same : write_input v i a s ≡ s' = ground (arith, found, equal, committed) in
        subst Written (sym same) (
          writes s' r' free refl (sym input_records) (sym inputs_by_key) refl
            (ground (arith, equal)))

    write-Written : Written (write_input v i a s)
    unfolding input_equal
    write-Written = elim (Bool-cases (input_equal v i a (get_record k s))) [
      | inl equal ↦ elim (Option-cases (get_record k s)) [
        | inl new ↦ absurd (ground (arith, equal, new))
        | inr (r, found) ↦ write-equal r found equal
      ]
      | inr differs ↦ write-changed differs
    ]

  written : policy_conflict i s ≡ false → Written (write_input v i a s)
  unfolding commit_input_registration
  written free = elim (Option-cases (find string_keys i.key s.input_records)) [
    | inl new ↦
        write-Written (put string_keys i.key (prospective_input_key i.key) s.input_records)
          (put string_keys i.key i s.inputs_by_key) (ground (arith, new)) free
    | inr (n, old) ↦ write-Written s.input_records s.inputs_by_key (ground (arith, old)) free
  ]

  set-writes :
      inside s.execution_stack ≡ false
      → policy_conflict i s ≡ false
      → set v i a s ≡ (ok tt, write_input v i a s)
  unfolding set
  set-writes outside free = rw (outside, free)

  -- A value that is set is the value that a read of the input returns next, if no query is running
  -- and the key has no other policy.
  pub read_input-set :
      inside s.execution_stack ≡ false
      → policy_conflict i s ≡ false
      → (read_input i (set v i a s).1).0 ≡ ok a
  unfolding read_input
  read_input-set outside free =
      let w = written free in
      ap (λ x. (read_input i x.1).0) (set-writes outside free)
      ∙ ground (arith, w.allowed, w.named, w.stored)
      ∙ ap ok w.snapshot

  -- Apart from the node of its input, a `set` leaves every record as it was. The revision moves by
  -- one, except where the `set` is refused and where the input's policy finds the new value equal to
  -- the stored one: there it stays.
  pub set-others :
      (j : NodeKey)
      → same_key k j ≡ false
      → (get_record j (set v i a s).1 ≡ get_record j s)
        × ((set v i a s).1.revision ≡ (
            if inside s.execution_stack || policy_conflict i s
            then s.revision
            else if input_equal v i a (get_record k s)
            then s.revision
            else s.revision + 1))
  unfolding set
  set-others j other = elim (Bool-cases (inside s.execution_stack)) [
    | inl refused ↦ ground (arith, refused)
    | inr outside ↦ elim (Bool-cases (policy_conflict i s)) [
      | inl conflict ↦ ground (arith, outside, conflict)
      | inr free ↦
          let w = written free in ground (arith, outside, free, w.others j other, w.revision)
    ]
  ]
