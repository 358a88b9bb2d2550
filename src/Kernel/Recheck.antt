-- ===== src/Kernel/Recheck.antt =====
-- runtime.py, the check of a record's dependencies: their values where it reports no change.
use Prim.Native.String.{◌++◌ as text_append}
use pyinc.Prelude.{
  ℕ, suc, ◌≤◌, ◌<◌, ◌≡◌, ◌≢◌, refl, sym, ◌∙◌, ap, true, false, Bool, Option, none, some, List, [],
  ◌∷◌, String, arith, All, All-map, In, All-at, Option-cases, Bool-cases, inl, inr,
}
use native.Mathlib.Nat.{le_refl, le_trans}
use mathlib.Core.Path.{subst}
use pyinc.Assoc.{find}
use pyinc.Kernel.Node.{Kind, kind_cases, NodeKey, node_keys}
use pyinc.Kernel.Program.{Outcome, ok, Program}
use pyinc.Kernel.State.{NodeRecord, Database, M, get_record}
use pyinc.Kernel.Verify.{
  recheck, moved_after, after_recheck, after_one, maybe_changed_after, live, dirty_reason,
}
use pyinc.Kernel.Fresh.{World, Rank, rank_of, node_value}
use pyinc.Kernel.Invariant.{core, EdgeOk}
use pyinc.Kernel.Settled.{Settled, Later, Later-refl, Later-trans, Above}
use pyinc.Kernel.Run.{IsInv, Ensures, Settled-value}

module _ {S : Type 0} (p : Program S) (rank : Rank) (digests : String → String) (W : ℕ → World S)
    (base : ℕ) (k : NodeKey) (is_query : k.kind ≡ Kind.query) (r : NodeRecord S)
    (ensure : NodeKey → M S (Unit {0}))
    (serves : Ensures p rank digests W base (rank_of rank k) ensure) where
  abbrev m : ℕ
  m = rank_of rank k

  -- `d` is settled, at the value that it had when `r` was verified.
  abbrev pub IsGreen : Database S → NodeKey → Type 0
  IsGreen s d =
      Settled (core s) d × (node_value rank p (W base) d ≡ node_value rank p (W r.verified_at) d)

  abbrev pub IsLowerKey : NodeKey → Type 0
  IsLowerKey d = d.kind ≡ Kind.query → rank_of rank d < m

  -- The state of the evaluation of `k`, whose record is `r`.
  pub record Ready (s : Database S) : Type 0 where
    pub inv : IsInv p rank digests W base s
    pub above : Above rank m s.execution_stack
    pub requested : s.request ≢ none
    pub record_of : find node_keys k s.records ≡ some r

  pub record Checked {A : Type 0} (green : A → Database S → Type 0) (s : Database S)
      (result : Outcome A × Database S) : Type 0 where
    pub answer : A
    pub after : Database S
    pub returns : result ≡ (ok answer, after)
    pub ready : Ready after
    pub later : Later rank m (core s) (core after)
    pub stack : after.execution_stack ≡ s.execution_stack
    pub means : green answer after

  abbrev SettledNode : NodeKey → Unit {0} → Database S → Type 0
  SettledNode d _ s = Settled (core s) d

  -- A dependency that has a record is settled.
  recheck-settles :
      (d : NodeKey) (rd : NodeRecord S) (s : Database S)
      → IsLowerKey d
      → Ready s
      → get_record d s ≡ some rd
      → Checked (SettledNode d) s (recheck ensure d s)
  unfolding recheck
  recheck-settles d rd s low h found = elim (kind_cases d.kind) [
    | inl e ↦ record {
      answer = tt;
      after = s;
      returns = ap (λ κ. elim κ [ Kind.input ↦ (ok tt, s) | Kind.query ↦ ensure d s ]) e;
      ready = h;
      later = Later-refl rank m (core s);
      stack = refl;
      means = record { found = rd; at = found; checked = λ q. cc };
    }
    | inr e ↦
        let above' : Above rank (suc (rank_of rank d)) s.execution_stack =
          All-map (λ x. m ≤ rank_of rank x.key) (λ x. suc (rank_of rank d) ≤ rank_of rank x.key)
            s.execution_stack (λ x le. le_trans (low e) le) h.above in
        let t = serves d s e (low e) h.inv above' h.requested in
        record {
          answer = tt;
          after = t.after;
          returns =
              ap (λ κ. elim κ [ Kind.input ↦ (ok tt, s) | Kind.query ↦ ensure d s ]) e ∙ t.returns;
          ready = record {
            inv = t.inv;
            above = subst (Above rank m) (sym t.stack) h.above;
            requested = λ q. h.requested (sym t.later.request ∙ q);
            record_of = t.later.untouched k (λ q. low e) ∙ h.record_of;
          };
          later = Later-trans rank (low e) t.later (Later-refl rank m (core t.after));
          stack = t.stack;
          means = t.settled;
        }
  ]

  moved_after-false :
      (d : NodeKey) (v : ℕ) (rd : NodeRecord S) (s : Database S)
      → get_record d s ≡ some rd
      → moved_after d v s ≡ false
      → rd.changed_at ≤ v
  unfolding moved_after
  moved_after-false d v rd s found h = ground (arith, found)

  -- One dependency: if it has not moved, it is green.
  abbrev GreenIf : NodeKey → Bool → Database S → Type 0
  GreenIf d b s = b ≡ false → IsGreen s d

  after_recheck-green :
      (d : NodeKey) (s : Database S) (result : Outcome (Unit {0}) × Database S)
      → In d r.dependencies
      → Checked (SettledNode d) s result
      → Checked (GreenIf d) s (after_recheck d r.verified_at result)
  unfolding after_recheck
  after_recheck-green d s result member c = record {
    answer = moved_after d r.verified_at c.after;
    after = c.after;
    returns = ap (after_recheck d r.verified_at) c.returns;
    ready = c.ready;
    later = c.later;
    stack = c.stack;
    means = λ still.
        let rd = c.means.found in
        let edges = (c.ready.inv.queries k r is_query c.ready.record_of).1 in
        (
          c.means,
          Settled-value p rank digests W base (core c.after) d c.ready.inv c.means
              ∙ sym (
                  All-at (EdgeOk p rank digests W (core c.after).records r.verified_at) member edges
                    rd c.means.at (moved_after-false d r.verified_at rd c.after c.means.at still)),
        );
  }

  maybe_changed-green :
      (d : NodeKey) (s : Database S)
      → IsLowerKey d
      → In d r.dependencies
      → Ready s
      → Checked (GreenIf d) s (maybe_changed_after ensure d r.verified_at s)
  unfolding maybe_changed_after
  maybe_changed-green d s low member h = elim (Option-cases (get_record d s)) [
    | inl gone ↦ rw gone (record {
      answer = true;
      after = s;
      returns = refl;
      ready = h;
      later = Later-refl rank m (core s);
      stack = refl;
      means = λ e. cc;
    })
    | inr (rd, found) ↦
        rw found
          (after_recheck-green d s (recheck ensure d s) member (recheck-settles d rd s low h found))
  ]

  abbrev pub AllGreen : List NodeKey → Option String → Database S → Type 0
  AllGreen ds o s = o ≡ none → All (IsGreen s) ds

  live_self : (s : Database S) → Ready s → live k r s ≡ r
  unfolding live
  live_self s h = ground (arith, h.record_of)

  -- The whole loop, over some of the record's dependencies.
  pub dirty_reason-green :
      (ds : List NodeKey) (s : Database S)
      → All IsLowerKey ds
      → All (λ d. In d r.dependencies) ds
      → Ready s
      → Checked (AllGreen ds) s (dirty_reason ensure k r ds s)
  unfolding dirty_reason after_one
  dirty_reason-green [] s low members h = record {
    answer = none;
    after = s;
    returns = refl;
    ready = h;
    later = Later-refl rank m (core s);
    stack = refl;
    means = λ e. tt;
  }
  dirty_reason-green (d ∷ ds) s low members h =
      let c = maybe_changed-green d s low.0 members.0 h in
      let more = dirty_reason ensure k r ds in
      rw (live_self s h) (elim (Bool-cases c.answer) [
        | inl moved ↦ record {
          answer = some (text_append "dependency changed: " d.label);
          after = c.after;
          returns =
              ap (after_one d more) c.returns ∙ ap (λ b. after_one d more (ok b, c.after)) moved;
          ready = c.ready;
          later = c.later;
          stack = c.stack;
          means = λ e. cc;
        }
        | inr still ↦
            let t = dirty_reason-green ds c.after low.1 members.1 c.ready in
            record {
              answer = t.answer;
              after = t.after;
              returns =
                  ap (after_one d more) c.returns
                  ∙ ap (λ b. after_one d more (ok b, c.after)) still
                  ∙ t.returns;
              ready = t.ready;
              later = Later-trans rank (le_refl m) c.later t.later;
              stack = t.stack ∙ c.stack;
              means = λ e. ((t.later.settled d (c.means still).0, (c.means still).1), t.means e);
            }
      ])
