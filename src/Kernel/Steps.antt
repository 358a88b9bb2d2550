-- ===== src/Kernel/Steps.antt =====
-- runtime.py, the steps inside an evaluation: the keys of the frames, the request and the registries
-- of the inputs before and after.
use pyinc.Prelude.{
  ◌≤◌, ◌≡◌, refl, sym, ◌∙◌, ap, Bool, true, false, Bool-cases, some, Option-cases, List, [], ◌∷◌,
  ◌++◌, map, String, arith, inl, inr, if◌then◌else◌,
}
use Prim.Native.String.{◌++◌ as text_append}
use mathlib.Core.Path.{subst}
use native.Mathlib.Nat.{le_trans}
use pyinc.Assoc.{find, string_keys}
use pyinc.Kernel.Node.{NodeKey, add}
use pyinc.Kernel.Program.{Error, Outcome, ok, raise, Input}
use pyinc.Kernel.State.{
  ExecutionFrame, Database, get_record, change_frame, record_dependency, mark_frame_untracked,
  mark_frame_impure, discard_uncommitted_query, on_stack, forget_query,
}
use pyinc.Kernel.Verify.{policy_conflict, read_input, own_cycle, failed, finish_get}

abbrev pub keys : List ExecutionFrame → List NodeKey
keys = map (λ f. f.key)

keys-change_frame :
    (f : ExecutionFrame → ExecutionFrame) (fs : List ExecutionFrame)
    → ((x : ExecutionFrame) → (f x).key ≡ x.key)
    → keys (change_frame f fs) ≡ keys fs
keys-change_frame f [] h = refl
keys-change_frame f (x ∷ xs) h = ap (λ k. k ∷ keys xs) (h x)

module _ {S : Type 0} where
  pub record Keeps (s s' : Database S) : Type 0 where
    pub frames : keys s'.execution_stack ≡ keys s.execution_stack
    pub revision : s.revision ≤ s'.revision
    pub request : s'.request ≡ s.request
    pub input_records : s'.input_records ≡ s.input_records
    pub inputs_by_key : s'.inputs_by_key ≡ s.inputs_by_key
    pub max_query_nodes : s'.max_query_nodes ≡ s.max_query_nodes

  -- A step that changes frames in place, and records and counters at will.
  pub keeps :
      (s s' : Database S)
      → keys s'.execution_stack ≡ keys s.execution_stack
      → s'.revision ≡ s.revision
      → s'.request ≡ s.request
      → s'.input_records ≡ s.input_records
      → s'.inputs_by_key ≡ s.inputs_by_key
      → s'.max_query_nodes ≡ s.max_query_nodes
      → Keeps s s'
  keeps s s' f v q i h m = record {
    frames = f;
    revision = omega (arith, v);
    request = q;
    input_records = i;
    inputs_by_key = h;
    max_query_nodes = m;
  }

  pub Keeps-refl : (s : Database S) → Keeps s s
  Keeps-refl s = keeps s s refl refl refl refl refl refl

  pub Keeps-trans : (s t u : Database S) → Keeps s t → Keeps t u → Keeps s u
  Keeps-trans s t u a b = record {
    frames = b.frames ∙ a.frames;
    revision = le_trans a.revision b.revision;
    request = b.request ∙ a.request;
    input_records = b.input_records ∙ a.input_records;
    inputs_by_key = b.inputs_by_key ∙ a.inputs_by_key;
    max_query_nodes = b.max_query_nodes ∙ a.max_query_nodes;
  }

  pub record_dependency-Keeps : (k : NodeKey) (s : Database S) → Keeps s (record_dependency k s)
  unfolding record_dependency
  record_dependency-Keeps k s =
      keeps s (record_dependency k s)
        (keys-change_frame (λ f. record f { dependencies = add k f.dependencies }) s.execution_stack
          (λ x. refl))
        refl refl refl refl refl

  pub read_at :
      (i : Input S) (s : Database S) (k : NodeKey)
      → policy_conflict i s ≡ false
      → find string_keys i.key s.input_records ≡ some k
      → Keeps s (read_input i s).1
  unfolding read_input
  read_at i s k free at = elim (Option-cases (get_record k s)) [
    | inl missing ↦
        let same : (read_input i s).1 ≡ s = ground (arith, free, at, missing) in
        subst (Keeps s) (sym same) (Keeps-refl s)
    | inr (r, found) ↦
        let same : (read_input i s).1 ≡ record_dependency k s = ground (arith, free, at, found) in
        subst (Keeps s) (sym same) (record_dependency-Keeps k s)
  ]

  pub read_input-Keeps : (i : Input S) (s : Database S) → Keeps s (read_input i s).1
  unfolding read_input
  read_input-Keeps i s = elim (Bool-cases (policy_conflict i s)) [
    | inl conflict ↦ rw conflict (Keeps-refl s)
    | inr free ↦ elim (Option-cases (find string_keys i.key s.input_records)) [
      | inl missing ↦ rw (free, missing) (Keeps-refl s)
      | inr (k, at) ↦ read_at i s k free at
    ]
  ]

  pub discard-Keeps : (k : NodeKey) (s : Database S) → Keeps s (discard_uncommitted_query k s)
  unfolding discard_uncommitted_query
  discard-Keeps k s = elim (Bool-cases (on_stack k s.execution_stack)) [
    | inl running ↦ rw running (Keeps-refl s)
    | inr idle ↦ rw idle (keeps s (forget_query k s) refl refl refl refl refl refl)
  ]

  pub marked-Keeps : (why : String) (s : Database S) → Keeps s (mark_frame_impure why s)
  unfolding mark_frame_impure
  marked-Keeps why s =
      keeps s (mark_frame_impure why s)
        (keys-change_frame
          (λ f. record f {
            untracked_reasons = f.untracked_reasons ++ why ∷ [];
            checkpointable = false;
          })
          s.execution_stack (λ x. refl))
        refl refl refl refl refl

  pub untracked-Keeps : (why : String) (s : Database S) → Keeps s (mark_frame_untracked why s)
  unfolding mark_frame_untracked
  untracked-Keeps why s =
      keeps s (mark_frame_untracked why s)
        (keys-change_frame (λ f. record f { untracked_reasons = f.untracked_reasons ++ why ∷ [] })
          s.execution_stack (λ x. refl))
        refl refl refl refl refl

  pub discarded-Keeps :
      (b : Bool) (k : NodeKey) (s : Database S)
      → Keeps s (if b then s else discard_uncommitted_query k s)
  discarded-Keeps true k s = Keeps-refl s
  discarded-Keeps false k s = discard-Keeps k s

  pub marked_unless-Keeps :
      (b : Bool) (why : String) (s : Database S)
      → Keeps s (if b then s else mark_frame_impure why s)
  marked_unless-Keeps true why s = Keeps-refl s
  marked_unless-Keeps false why s = marked-Keeps why s

  pub failed-Keeps :
      (b : Bool) (k : NodeKey) (e : Error) (s : Database S) → Keeps s (failed b k e s)
  unfolding failed
  failed-Keeps b k e s =
      let s' = if b then s else discard_uncommitted_query k s in
      Keeps-trans s s' (failed b k e s) (discarded-Keeps b k s) (
        marked_unless-Keeps (own_cycle e k s'.execution_stack)
          (text_append "caught exception from sub-query '" (text_append k.label "'")) s')

  pub finish_get-Keeps :
      (b : Bool) (k : NodeKey) (r : Outcome (Unit {0}) × Database S)
      → Keeps r.1 (finish_get b k r).1
  unfolding finish_get
  finish_get-Keeps b k (ok u, s) =
      let same : (finish_get b k (ok u, s)).1 ≡ record_dependency k s =
        elim (Option-cases (get_record k s)) [
          | inl missing ↦ ground (arith, missing)
          | inr (r, found) ↦ ground (arith, found)
        ] in
      subst (Keeps s) (sym same) (record_dependency-Keeps k s)
  finish_get-Keeps b k (raise e, s) = failed-Keeps b k e s
