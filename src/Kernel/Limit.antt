-- ===== src/Kernel/Limit.antt =====
-- runtime.py: what a `get` leaves, whether it returns or raises.
use pyinc.Prelude.{
  ℕ, zero, suc, ◌≡◌, refl, sym, Bool-cases, none, Option-cases, List, [], ◌∷◌, arith, inl, inr,
  length, ltb,
}
use mathlib.Core.Path.{subst}
use pyinc.Kernel.Node.{NodeKey}
use pyinc.Kernel.Program.{Program}
use pyinc.Kernel.State.{Database, evict_query_record}
use pyinc.Kernel.Verify.{get_within}
use pyinc.Kernel.Execute.{ensure_query}
use pyinc.Kernel.Requests.{
  evict_one, evict_rounds, evict_query_nodes_if_needed, open_request, close_request, get,
}
use pyinc.Kernel.Steps.{Keeps, keeps, Keeps-refl, Keeps-trans}
use pyinc.Kernel.Keeps.{get_within-Keeps, ensure_query-Keeps}

module _ {S : Type 0} where
  evict_one-Keeps : (s : Database S) (qs : List NodeKey) → Keeps s (evict_one s qs)
  unfolding evict_one evict_query_record
  evict_one-Keeps s [] = Keeps-refl s
  evict_one-Keeps s (k ∷ ks) = keeps s (evict_one s (k ∷ ks)) refl refl refl refl refl refl

  evict_rounds-Keeps : (n limit : ℕ) (s : Database S) → Keeps s (evict_rounds n limit s)
  unfolding evict_rounds
  evict_rounds-Keeps zero limit s = Keeps-refl s
  evict_rounds-Keeps (suc n) limit s = elim (Bool-cases (ltb limit (length s.query_records))) [
    | inl over ↦
        let t = evict_one s s.query_records in
        rw over (
          Keeps-trans s t (evict_rounds n limit t) (evict_one-Keeps s s.query_records)
            (evict_rounds-Keeps n limit t))
    | inr within ↦ rw within (Keeps-refl s)
  ]

  evict-Keeps : (s : Database S) → Keeps s (evict_query_nodes_if_needed s)
  unfolding evict_query_nodes_if_needed
  evict-Keeps s = elim (Option-cases s.max_query_nodes) [
    | inl unlimited ↦
        let same : evict_query_nodes_if_needed s ≡ s = ground (arith, unlimited) in
        subst (Keeps s) (sym same) (Keeps-refl s)
    | inr (limit, e) ↦
        let rounds = evict_rounds (length s.query_records) limit s in
        let same : evict_query_nodes_if_needed s ≡ rounds = ground (arith, e) in
        subst (Keeps s) (sym same) (evict_rounds-Keeps (length s.query_records) limit s)
  ]

  module _ (p : Program S) (depth : ℕ) (k : NodeKey) (s : Database S) where
    within-Keeps : (t : Database S) → Keeps t (get_within (ensure_query p depth) k t).1
    within-Keeps = get_within-Keeps (ensure_query p depth) (ensure_query-Keeps p depth) k

    -- the state before the request of a top-level `get` is closed
    abbrev pub served : Database S
    served = (get_within (ensure_query p depth) k (open_request s)).1

    pub get-closed : s.request ≡ none → (get p depth k s).1 ≡ close_request served
    unfolding get
    get-closed idle = ground (arith, idle)

    -- A `get` with no request open, whatever the functions of the program do and whether it
    -- returns or raises, ends with the frames that were on the stack before, no request open, the
    -- registered inputs as they were, and at a revision that is not an earlier one.
    pub get-Keeps : s.request ≡ none → Keeps s (get p depth k s).1
    unfolding open_request close_request
    get-Keeps idle =
        let t = record served { request = none } in
        let h = within-Keeps (open_request s) in
        let ended : Keeps s t = record {
          frames = h.frames;
          revision = h.revision;
          request = sym idle;
          input_records = h.input_records;
          inputs_by_key = h.inputs_by_key;
          max_query_nodes = h.max_query_nodes;
        } in
        subst (Keeps s) (sym (get-closed idle))
          (Keeps-trans s t (evict_query_nodes_if_needed t) ended (evict-Keeps t))
