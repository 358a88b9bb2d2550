-- ===== src/Kernel/Commit.antt =====
-- runtime.py, the end of `_execute_query`: the invariant when a result is stored.

use text.Mathlib.Text.{◌==◌ as str_eq}
use text.Mathlib.TextEquality.{eq_iff}
use native.Mathlib.Nat.{le_refl}
use pyinc.Prelude.{
  ℕ, suc, ◌≤◌, ◌<◌, ◌≡◌, ◌≢◌, refl, sym, ◌∙◌, ap, true, Bool, not, ◌&&◌, &&-true, Option, none,
  some, some_eq, String, arith, All, All-map, Bool-cases, ◌⊎◌, inl, inr,
}
use pyinc.Assoc.{find}
use pyinc.Kernel.Node.{Kind, NodeKey, node_keys, add}
use pyinc.Kernel.Program.{ok, Values, Policy, canonical, eq, cutoff, compare_values, Program}
use pyinc.Kernel.State.{NodeRecord, Database, ExecutionFrame}
use pyinc.Kernel.Execute.{Commit, equal_result, decide, has_reasons, committed_record, commit}
use pyinc.Kernel.Fresh.{World, Rank, rank_of, value, node_value, node_value-query, IsRanked}
use pyinc.Kernel.Invariant.{core, QueryOk, Agrees, EdgeOk, put-Inv}
use pyinc.Kernel.Settled.{Settled, Later, put-Later, put-Settled_self, All-add}
use pyinc.Kernel.Run.{IsInv, Settled-value}

-- What is asked of the value layer and of the policies: they tell different values apart.
pub record IsExact {S : Type 0} (p : Program S) : Type 0 where
  pub snapshots : (a b : S) → p.values.snapshots_equal a b ≡ true → a ≡ b
  pub fingerprints :
      (a b : S) → p.values.fingerprint_snapshot a ≡ p.values.fingerprint_snapshot b → a ≡ b
  pub policies :
      (identity : String) (a b : S) → compare_values p.values (p.policy identity) a b ≡ true → a ≡ b

module _ {S : Type 0} where
  equal_result-compare :
      (v : Values S) (policy : Policy S) (r : NodeRecord S) (a : S) (digest : String)
      → equal_result v policy r a digest ≡ true
      → compare_values v policy r.snapshot a ≡ true
  unfolding equal_result compare_values
  equal_result-compare v canonical r a digest h = ground arith
  equal_result-compare v (eq f) r a digest h = h
  equal_result-compare v (cutoff f) r a digest h = h

  -- A decision that does not move `changed_at` past the revision keeps the previous value.
  abbrev KeepsOld : Program S → Option (NodeRecord S) → S → ℕ → Commit → Type 0
  KeepsOld p previous a revision c =
      ((previous ≡ none) × (c.changed_at ≡ revision))
      ⊎ ((old : NodeRecord S) × (previous ≡ some old)
          × (old.snapshot ≡ a)
          × (c.changed_at ≡ old.changed_at))

  pub decide-le :
      (v : Values S) (policy : Policy S) (previous : Option (NodeRecord S)) (impure : Bool) (a : S)
      (digest : String) (revision : ℕ)
      → revision ≤ (decide v policy previous impure a digest revision).new_revision
  unfolding decide
  decide-le v policy none impure a digest revision = le_refl revision
  decide-le v policy (some old) impure a digest revision = ground arith

  decide-keeps :
      (p : Program S) (identity : String) (previous : Option (NodeRecord S)) (impure : Bool) (a : S)
      (revision : ℕ)
      → IsExact p
      → ((old : NodeRecord S)
          → previous ≡ some old
          → old.digest ≡ p.values.fingerprint_snapshot old.snapshot)
      → (decide p.values
          (p.policy identity)
          previous
          impure
          a
          (p.values.fingerprint_snapshot a)
          revision).changed_at
        ≤ revision
      → KeepsOld p previous a revision (
          decide p.values
            (p.policy identity)
            previous
            impure
            a
            (p.values.fingerprint_snapshot a)
            revision)
  unfolding decide
  decide-keeps p identity none impure a revision exact digested le = inl (refl, refl)
  decide-keeps p identity (some old) impure a revision exact digested le =
      elim (Bool-cases (
        not impure
        && equal_result p.values (p.policy identity) old a (p.values.fingerprint_snapshot a))) [
          | inl same ↦ inr (
            old,
            refl,
            exact.policies identity old.snapshot a (
                equal_result-compare p.values (p.policy identity) old a
                  (p.values.fingerprint_snapshot a) (&&-true _ _ same).1),
            ground arith,
          )
          | inr other ↦
              elim (Bool-cases (impure && str_eq (p.values.fingerprint_snapshot a) old.digest)) [
                | inl same ↦ inr (
                  old,
                  refl,
                  exact.fingerprints old.snapshot a (
                      sym (digested old refl)
                      ∙ sym (
                          (eq_iff (p.values.fingerprint_snapshot a) old.digest).0
                            (&&-true _ _ same).1)),
                  ground arith,
                )
                | inr new ↦ absurd (ground arith)
              ]
        ]

module _ {S : Type 0} (p : Program S) (rank : Rank) (digests : String → String) (W : ℕ → World S)
    (base : ℕ) (exact : IsExact p) (ranked : IsRanked rank p) (k : NodeKey)
    (is_query : k.kind ≡ Kind.query) where
  -- After the run of the function of `k`, with its frame taken off the stack.
  module _ (s : Database S) (frame : ExecutionFrame) (a : S) (inv : IsInv p rank digests W base s)
      (requested : s.request ≢ none) (correct : value rank p (W base) k ≡ ok a)
      (settled : All (Settled (core s)) frame.dependencies)
      (lower : All (λ d. d.kind ≡ Kind.query → rank_of rank d < rank_of rank k) frame.dependencies)
      (covers : (w : World S)
        → All (λ d. node_value rank p w d ≡ node_value rank p (W base) d) frame.dependencies
        → value rank p w k ≡ ok a)
      (previous : Option (NodeRecord S)) (known : find node_keys k s.records ≡ previous) where
    abbrev digest : String
    digest = p.values.fingerprint_snapshot a

    abbrev decided : Commit
    decided =
        decide p.values (p.policy k.identity) previous (has_reasons frame.untracked_reasons) a
          digest s.revision

    abbrev new_record : String → NodeRecord S
    new_record why = committed_record decided frame why a digest s.request

    -- The revision moves on, in the world of the request.
    still-decided : W decided.new_revision ≡ W base
    still-decided = inv.still decided.new_revision (
        omega (
          arith,
          inv.started,
          decide-le p.values (p.policy k.identity) previous (has_reasons frame.untracked_reasons) a
              digest s.revision,
        ))

    new-QueryOk :
        (why : String)
        → QueryOk p rank digests W base decided.new_revision s.request_counter s.request k
            (new_record why)
    new-QueryOk why = record {
      verified = le_refl decided.new_revision;
      current = λ e. omega (
        arith,
        inv.started,
        decide-le p.values (p.policy k.identity) previous (has_reasons frame.untracked_reasons) a
            digest s.revision,
      );
      asked = inv.open_request;
      was_asked = requested;
      digested = refl;
      lower = lower;
      covers = λ w h. covers w (
          All-map (Agrees p rank digests W w decided.new_revision)
            (λ d. node_value rank p w d ≡ node_value rank p (W base) d) frame.dependencies
            (λ d e. e ∙ ap (λ x. node_value rank p x d) still-decided) h);
    }

    new-edges : All (EdgeOk p rank digests W s.records decided.new_revision) frame.dependencies
    new-edges =
        All-map (Settled (core s)) (EdgeOk p rank digests W s.records decided.new_revision)
          frame.dependencies
          (λ d h r found le.
            ap (λ x. node_value rank p x d) still-decided
            ∙ Settled-value p rank digests W base (core s) d inv h
            ∙ ap (λ (x : NodeRecord S). ok x.snapshot) (some_eq (sym h.at ∙ found)))
          settled

    digested :
        (old : NodeRecord S)
        → previous ≡ some old
        → old.digest ≡ p.values.fingerprint_snapshot old.snapshot
    digested old e = (inv.queries k old is_query (known ∙ e)).0.digested

    new-steps :
        (v : ℕ)
        → v ≤ s.revision
        → EdgeOk p rank digests W s.records v k
        → decided.changed_at ≤ v
        → node_value rank p (W v) k ≡ ok a
    new-steps v le edge at =
        elim (decide-keeps p k.identity previous (has_reasons frame.untracked_reasons) a s.revision
          exact digested (omega (arith, le, at))) [
            | inl (cold, e) ↦
                ap (λ x. node_value rank p x k) (inv.still v (omega (arith, inv.started)))
                ∙ node_value-query rank p (W base) k is_query
                ∙ correct
            | inr (old, e, same, c) ↦ edge old (known ∙ e) (omega (arith, c)) ∙ ap ok same
          ]

    pub commit-Inv :
        (why : String) → IsInv p rank digests W base (commit p k previous why frame a s)
    unfolding commit
    commit-Inv why =
        put-Inv p rank digests W base (core s) inv k (new_record why) decided.new_revision
          (add k s.query_records) is_query
          (decide-le p.values (p.policy k.identity) previous (has_reasons frame.untracked_reasons) a
            digest s.revision)
          (new-QueryOk why) new-edges new-steps
          (All-add (λ j. j.kind ≡ Kind.query) k s.query_records is_query inv.evictable)

    pub commit-Later :
        (why : String)
        → Later rank (suc (rank_of rank k)) (core s) (core (commit p k previous why frame a s))
    unfolding commit
    commit-Later why =
        put-Later rank (core s) k (new_record why) decided.new_revision (add k s.query_records)
          (decide-le p.values (p.policy k.identity) previous (has_reasons frame.untracked_reasons) a
            digest s.revision)
          is_query refl

    pub commit-Settled : (why : String) → Settled (core (commit p k previous why frame a s)) k
    unfolding commit
    commit-Settled why =
        put-Settled_self rank (core s) k (new_record why) decided.new_revision
          (add k s.query_records)
          (decide-le p.values (p.policy k.identity) previous (has_reasons frame.untracked_reasons) a
            digest s.revision)
          is_query refl
