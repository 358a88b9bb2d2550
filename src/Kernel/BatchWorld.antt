-- ===== src/Kernel/BatchWorld.antt =====
-- runtime.py, `set_many`: which updates of a batch move the world, and when a key is repeated.
use text.Mathlib.Text.{◌==◌ as str_eq}
use pyinc.Prelude.{
  Bool, ◌≡◌, refl, sym, ◌∙◌, ap, true, false, Option, none, some, List, [], ◌∷◌, String, arith, All,
  Bool-cases, inl, inr, if◌then◌else◌,
}
use pyinc.Kernel.Program.{Error, input_key_error, Input, Values}
use pyinc.Kernel.State.{Database, get_record}
use pyinc.Kernel.Inputs.{input_node_key, input_equal}
use pyinc.Kernel.Batch.{Update, seen, decisions, changed_updates}
use pyinc.Kernel.Fresh.{World}
use pyinc.Kernel.Serving.{update_all}
use pyinc.Kernel.SetInput.{update, update_other}
use pyinc.Kernel.SetSteps.{update_same}
use pyinc.Kernel.BatchPhases.{IsCurrent}
use pyinc.Kernel.BatchChanges.{update_each}

-- The key of the first pair whose key is in `keys` or is that of an earlier pair.
unfoldable pub repeated : {S : Type 0} → List (Input S × S) → List String → Option String
unfolding seen
repeated [] keys = none
repeated ((i, a) ∷ updates) keys =
    let rest = repeated updates (i.key ∷ keys) in if seen i.key keys then some i.key else rest

-- The error of a batch in which a key is repeated.
abbrev pub refusal : Option String → Option Error
refusal none = none
refusal (some key) = some (input_key_error key)

seen-later : (j k : String) (keys : List String) → seen j keys ≡ true → seen j (k ∷ keys) ≡ true
unfolding seen
seen-later j k keys h = ground (arith, h)

-- A key that is not yet seen, and is that of the first pair.
pub seen-first :
    (key j : String) (keys : List String) → str_eq key j ≡ true → seen j (key ∷ keys) ≡ true
unfolding seen
seen-first key j keys h = ground (arith, h)

module _ {S : Type 0} (P : Update S → Type 0) where
  All-unless :
      (b : Bool) (u : Update S) (us : List (Update S))
      → P u
      → All P us
      → All P (if b then us else u ∷ us)
  All-unless true u us h rest = rest
  All-unless false u us h rest = (h, rest)

  pub changed_updates-All : (us : List (Update S)) → All P us → All P (changed_updates us)
  unfolding changed_updates
  changed_updates-All [] h = tt
  changed_updates-All (u ∷ us) (h, rest) =
      All-unless u.equal u (changed_updates us) h (changed_updates-All us rest)

module _ {S : Type 0} where
  -- The pairs of a batch without a repeated key have other keys than `key`, which was seen.
  pub repeated-apart :
      (key : String) (updates : List (Input S × S)) (keys : List String)
      → ((j : String) → str_eq key j ≡ true → seen j keys ≡ true)
      → repeated updates keys ≡ none
      → All (λ u. str_eq key u.0.key ≡ false) updates
  unfolding repeated
  repeated-apart key [] keys known distinct = tt
  repeated-apart key ((i, a) ∷ updates) keys known distinct = elim (Bool-cases (seen i.key keys)) [
    | inl again ↦ absurd (ground (arith, again, distinct))
    | inr fresh ↦ (
      elim (Bool-cases (str_eq key i.key)) [
        | inl same ↦ absurd (ground (arith, fresh, known i.key same))
        | inr other ↦ other
      ],
      repeated-apart key updates (i.key ∷ keys) (λ j same. seen-later j i.key keys (known j same))
          (ground (arith, fresh, distinct)),
    )
  ]

  module _ (v : Values S) (s : Database S) where
    pub update_each-update_all :
        (updates : List (Input S × S)) (w : World S)
        → update_each (decisions v updates s) w ≡ update_all updates w
    unfolding update_each update_all decisions
    update_each-update_all [] w = refl
    update_each-update_all ((i, a) ∷ updates) w = update_each-update_all updates (update w i.key a)

    IsCurrent-update :
        (key : String) (a : S) (w : World S) (updates : List (Input S × S))
        → All (λ u. str_eq key u.0.key ≡ false) updates
        → All (IsCurrent w) (decisions v updates s)
        → All (IsCurrent (update w key a)) (decisions v updates s)
    unfolding decisions
    IsCurrent-update key a w [] apart current = tt
    IsCurrent-update key a w ((i, b) ∷ updates) (other, apart) (c, current) = (
      (λ same. update_other w key a i.key other ∙ c same),
      IsCurrent-update key a w updates apart current,
    )

    -- Only the changed updates move the world, if the equal ones have its values.
    pub update_each-changed :
        (updates : List (Input S × S)) (keys : List String) (w : World S)
        → repeated updates keys ≡ none
        → All (IsCurrent w) (decisions v updates s)
        → update_each (changed_updates (decisions v updates s)) w
          ≡ update_each (decisions v updates s) w
    unfolding update_each decisions changed_updates repeated
    update_each-changed [] keys w distinct current = refl
    update_each-changed ((i, a) ∷ updates) keys w distinct (c, current) =
        let rest : repeated updates (i.key ∷ keys) ≡ none = ground (arith, distinct) in
        let apart =
          repeated-apart i.key updates (i.key ∷ keys) (λ j. seen-first i.key j keys) rest in
        elim (Bool-cases (input_equal v i a (get_record (input_node_key i s) s))) [
          | inl same ↦
              rw (same, changed_updates)
                (update_each-changed updates (i.key ∷ keys) w rest current
                  ∙ ap (update_each (decisions v updates s)) (sym (update_same w i.key a (c same))))
          | inr differs ↦
              rw (differs, changed_updates)
                (update_each-changed updates (i.key ∷ keys) (update w i.key a) rest
                  (IsCurrent-update i.key a w updates apart current))
        ]
