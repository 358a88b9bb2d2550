-- ===== src/Kernel/BatchRead.antt =====
-- runtime.py, `set_many` and `read_input`: what reads find after a batch.
use text.Mathlib.Text.{◌==◌ as str_eq}
use pyinc.Prelude.{
  ◌≡◌, refl, sym, ◌∙◌, ap, false, none, some, List, [], ◌∷◌, String, arith, All, All-both,
}
use mathlib.Core.Path.{subst}
use pyinc.Assoc.{string_refl, string_sym}
use pyinc.Kernel.Program.{ok, Input, Program}
use pyinc.Kernel.State.{Database}
use pyinc.Kernel.Verify.{read_input}
use pyinc.Kernel.Batch.{set_many}
use pyinc.Kernel.Fresh.{World, Rank}
use pyinc.Kernel.Run.{read_input-ok}
use pyinc.Kernel.Serving.{update_all, IsServing}
use pyinc.Kernel.SetInput.{update, update_self, update_other}
use pyinc.Kernel.BatchWorld.{repeated, repeated-apart, seen-first}
use pyinc.Kernel.BatchServed.{IsHandled, set_many-Written}

module _ {S : Type 0} where
  -- A key that no pair has keeps its value.
  update_all_other :
      (key : String) (updates : List (Input S × S)) (w : World S)
      → All (λ u. str_eq key u.0.key ≡ false) updates
      → update_all updates w key ≡ w key
  unfolding update_all
  update_all_other key [] w apart = refl
  update_all_other key ((i, a) ∷ updates) w (other, apart) =
      update_all_other key updates (update w i.key a) apart
      ∙ update_other w i.key a key (ground (arith, other, string_sym i.key key))

  update_all_each :
      (updates : List (Input S × S)) (keys : List String) (w : World S)
      → repeated updates keys ≡ none
      → All (λ u. update_all updates w u.0.key ≡ some u.1) updates
  unfolding update_all repeated
  update_all_each [] keys w distinct = tt
  update_all_each ((i, a) ∷ updates) keys w distinct =
      let rest : repeated updates (i.key ∷ keys) ≡ none = ground (arith, distinct) in
      (
        update_all_other i.key updates (update w i.key a)
              (repeated-apart i.key updates (i.key ∷ keys) (λ j. seen-first i.key j keys) rest)
            ∙ update_self w i.key a i.key (string_refl i.key),
        update_all_each updates (i.key ∷ keys) (update w i.key a) rest,
      )

module _ {S : Type 0} (p : Program S) (rank : Rank) (digests : String → String) where
  read-world :
      (i : Input S) (v : S) (w : World S) (s : Database S)
      → IsServing p rank digests w s
      → i.policy_digest ≡ digests i.key
      → w i.key ≡ some v
      → (read_input i s).0 ≡ ok v
  read-world i v w s (W, base, e, inv, idle) digest set =
      ap (λ x. x.0)
        (read_input-ok p rank digests W base i s v inv (ap (λ x. x i.key) e ∙ set) digest)

  -- After a batch without a repeated key, each of its inputs is read with the value that the batch
  -- gave it. The conditions: the database is between requests with the invariant of its records;
  -- every handle of the batch has the policy of its key, and that policy tells different values
  -- apart.
  pub set_many-read_input :
      (updates : List (Input S × S)) (w : World S) (s : Database S)
      → IsServing p rank digests w s
      → All (λ u. IsHandled p rank digests u.0) updates
      → repeated updates [] ≡ none
      → All (λ u. (read_input u.0 (set_many p.values updates s).1).0 ≡ ok u.1) updates
  set_many-read_input updates w s (W, base, e, inv, idle) handled distinct =
      let r = set_many-Written p rank digests W base s inv idle updates handled distinct in
      let serving =
        subst (IsServing p rank digests (update_all updates (W base)))
          (sym (ap (λ x. x.1) r.returns)) r.serving in
      All-both (λ u. IsHandled p rank digests u.0)
        (λ u. update_all updates (W base) u.0.key ≡ some u.1)
        (λ u. (read_input u.0 (set_many p.values updates s).1).0 ≡ ok u.1) updates
        (λ u h set.
          read-world u.0 u.1 (update_all updates (W base)) (set_many p.values updates s).1 serving
            h.0 set)
        handled (update_all_each updates [] (W base) distinct)
