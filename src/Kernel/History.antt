-- ===== src/Kernel/History.antt =====
-- runtime.py: a whole session, a sequence of `set`, `set_many` and `get` on one `Database`, against the values
-- from scratch.
use pyinc.Prelude.{
  All, Option-cases, some, inl, inr, ℕ, ◌<◌, ◌≡◌, refl, sym, ◌∙◌, ap, Option, none, List, [], ◌∷◌,
  String, arith,
}
use mathlib.Core.Path.{subst}
use pyinc.Assoc.{find-empty, string_keys}
use pyinc.Kernel.Node.{Kind, NodeKey, node_keys}
use pyinc.Kernel.Program.{input_key_error, Outcome, ok, raise, Input, Program}
use pyinc.Kernel.State.{Database, init}
use pyinc.Kernel.Inputs.{set}
use pyinc.Kernel.Requests.{get}
use pyinc.Kernel.Fresh.{World, Rank, rank_of, value, IsRanked}
use pyinc.Kernel.Run.{Safe, IsInv}
use pyinc.Kernel.Commit.{IsExact}
use pyinc.Kernel.Serve.{get-Served}
use pyinc.Kernel.SetInput.{update}
use pyinc.Kernel.Batch.{set_many}
use pyinc.Kernel.Serving.{update_all, IsServing}
use pyinc.Kernel.BatchWorld.{repeated}
use pyinc.Kernel.BatchServed.{IsHandled, set_many-refused, set_many-Written, set-Written}

pub data Op (S : Type 0) : Type 0 where
  set_input : Input S → S → Op S
  set_inputs : List (Input S × S) → Op S
  get_query : NodeKey → Op S

pub data Answer (S : Type 0) : Type 0 where
  was_set : Outcome (Unit {0}) → Answer S
  got : Outcome S → Answer S

-- No input is set.
abbrev pub no_inputs : {S : Type 0} → World S
no_inputs key = none

-- What `set_many` answers, given the key that is repeated in the batch, if one is.
abbrev pub batch_outcome : Option String → Outcome (Unit {0})
batch_outcome none = ok tt
batch_outcome (some key) = raise (input_key_error key)

-- The world after it.
abbrev pub batch_world : {S : Type 0} → Option String → List (Input S × S) → World S → World S
batch_world none updates w = update_all updates w
batch_world (some key) updates w = w

module _ {S : Type 0} (p : Program S) where
  -- What the database answers.
  unfoldable pub answers : ℕ → List (Op S) → Database S → List (Answer S)
  answers depth [] s = []
  answers depth (set_input i a ∷ ops) s =
      let (o, s') = set p.values i a s in was_set o ∷ answers depth ops s'
  answers depth (set_inputs updates ∷ ops) s =
      let (o, s') = set_many p.values updates s in was_set o ∷ answers depth ops s'
  answers depth (get_query k ∷ ops) s =
      let (o, s') = get p depth k s in got o ∷ answers depth ops s'

  module _ (rank : Rank) where
    -- What a program without a memory answers.
    unfoldable pub from_scratch : List (Op S) → World S → List (Answer S)
    from_scratch [] w = []
    from_scratch (set_input i a ∷ ops) w = was_set (ok tt) ∷ from_scratch ops (update w i.key a)
    from_scratch (set_inputs updates ∷ ops) w =
        was_set (batch_outcome (repeated updates []))
        ∷ from_scratch ops (batch_world (repeated updates []) updates w)
    from_scratch (get_query k ∷ ops) w = got (value rank p w k) ∷ from_scratch ops w

    module _ (digests : String → String) (depth : ℕ) where
      -- Handles of one key have one policy, which tells different values apart. At a `get`, no
      -- function of the program raises or reads an input that is not set.
      abbrev pub Sound : List (Op S) → World S → Type 0
      Sound [] w = Unit
      Sound (set_input i a ∷ ops) w = IsHandled p rank digests i × Sound ops (update w i.key a)
      Sound (set_inputs updates ∷ ops) w =
          All (λ u. IsHandled p rank digests u.0) updates
          × Sound ops (batch_world (repeated updates []) updates w)
      Sound (get_query k ∷ ops) w =
          (k.kind ≡ Kind.query)
          × (rank_of rank k < depth)
          × ((identity args : String) → Safe p rank digests w (p.body identity args))
          × Sound ops w

  pub init-Inv :
      (rank : Rank) (digests : String → String) (limit : Option ℕ)
      → IsInv p rank digests (λ v. no_inputs) 0 (init limit)
  init-Inv rank digests limit = record {
    started = omega arith;
    still = λ v le. refl;
    queries = λ k r e found. absurd (find-empty node_keys k r found);
    inputs = λ k r e found. absurd (find-empty node_keys k r found);
    plain = λ k r e found. absurd (find-empty node_keys k r found);
    registered = λ key v h. cc;
    names = λ key k h. absurd (find-empty string_keys key k h);
    evictable = tt;
    open_request = λ n h. cc;
    policies = λ key i h. absurd (find-empty string_keys key i h);
  }

  module _ (rank : Rank) (digests : String → String) (exact : IsExact p)
      (ranked : IsRanked rank p) where
    abbrev Agree : ℕ → List (Op S) → Type 0
    Agree depth ops =
        (w : World S) (s : Database S)
        → IsServing p rank digests w s
        → Sound rank digests depth ops w
        → answers depth ops s ≡ from_scratch rank ops w

    answers-batch :
        (depth : ℕ) (updates : List (Input S × S)) (ops : List (Op S))
        → Agree depth ops
        → Agree depth (set_inputs updates ∷ ops)
    unfolding answers from_scratch
    answers-batch depth updates ops rest w s (W, base, e, inv, idle) (handled, sound) =
        elim (Option-cases (repeated updates [])) [
          | inl distinct ↦
              let r = set_many-Written p rank digests W base s inv idle updates handled distinct in
              let moved = ap (update_all updates) e in
              ap (λ x. was_set x.0 ∷ answers depth ops x.1) r.returns
              ∙ ap (λ t. was_set (ok tt) ∷ t)
                  (rest (update_all updates w) r.after
                    (subst (λ x. IsServing p rank digests x r.after) moved r.serving)
                    (subst (λ o. Sound rank digests depth ops (batch_world o updates w)) distinct
                      sound))
              ∙ ap
                  (λ o. was_set (batch_outcome o) ∷ from_scratch rank ops (batch_world o updates w))
                  (sym distinct)
          | inr (key, again) ↦
              let r = set_many-refused p rank digests W base s inv idle updates key handled again in
              ap (λ x. was_set x.0 ∷ answers depth ops x.1) r
              ∙ ap (λ t. was_set (raise (input_key_error key)) ∷ t)
                  (rest w s (W, base, e, inv, idle)
                    (subst (λ o. Sound rank digests depth ops (batch_world o updates w)) again
                      sound))
              ∙ ap
                  (λ o. was_set (batch_outcome o) ∷ from_scratch rank ops (batch_world o updates w))
                  (sym again)
        ]

    answers-serving : (depth : ℕ) (ops : List (Op S)) → Agree depth ops
    unfolding answers from_scratch
    answers-serving depth [] w s serving sound = refl
    answers-serving depth (set_input i a ∷ ops) w s (W, base, e, inv, idle) (handled, sound) =
        let r = set-Written p rank digests W base s inv idle i a handled in
        ap (λ x. was_set x.0 ∷ answers depth ops x.1) r.returns
        ∙ ap (λ rest. was_set (ok tt) ∷ rest)
            (answers-serving depth ops (update w i.key a) r.after
              (subst (λ x. IsServing p rank digests (update x i.key a) r.after) e r.serving) sound)
    answers-serving depth (set_inputs updates ∷ ops) w s serving sound =
        answers-batch depth updates ops (answers-serving depth ops) w s serving sound
    answers-serving depth (get_query k ∷ ops) w s (W, base, e, inv, idle) sound =
        let r =
          get-Served p rank digests W base exact ranked
            (λ identity args.
              subst (λ x. Safe p rank digests x (p.body identity args)) (sym e)
                (sound.2 identity args))
            depth k s sound.0 sound.1 inv idle in
        ap (λ x. got x.0 ∷ answers depth ops x.1) r.returns
        ∙ ap (λ rest. got (ok r.snapshot) ∷ rest)
            (answers-serving depth ops w r.after (W, base, e, r.inv, r.idle) sound.3)
        ∙ ap (λ o. got o ∷ from_scratch rank ops w) (sym r.correct ∙ ap (λ x. value rank p x k) e)

    -- A session of `set`, `set_many` and top-level `get` calls on a new database gives the
    -- answers of a program that computes everything from scratch, whatever the limit on stored
    -- queries; every call returns or, for a batch in which a key is repeated, is refused, and then
    -- it changes no later answer. The conditions: snapshots, fingerprints and policies tell
    -- different values apart; functions call queries of lower rank; the handles of one input have
    -- one policy; and at each `get`, which is of a query with a rank below the depth of nested
    -- calls, no function of the program, evaluated from scratch in the world of that `get`, raises,
    -- reads an input that is not set or reads one with another policy than its own.
    pub answers-from_scratch :
        (depth : ℕ) (limit : Option ℕ) (ops : List (Op S))
        → Sound rank digests depth ops no_inputs
        → answers depth ops (init limit) ≡ from_scratch rank ops no_inputs
    answers-from_scratch depth limit ops =
        answers-serving depth ops no_inputs (init limit)
          (λ v. no_inputs, 0, refl, init-Inv rank digests limit, (refl, refl))
