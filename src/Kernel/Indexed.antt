-- ===== src/Kernel/Indexed.antt =====
-- runtime.py, evaluations of any program, returned or raised: the records of queries and the set of their
-- keys, `_query_records`.
use pyinc.Prelude.{
  ◌≡◌, refl, sym, ◌∙◌, ap, Bool, true, false, Bool-cases, Option-cases, List, [], ◌∷◌, String,
  arith, inl, inr, is_some, if◌then◌else◌,
}
use Prim.Native.String.{◌++◌ as text_append}
use mathlib.Core.Path.{subst}
use pyinc.Assoc.{find, put, find-put, find-remove, find-cong, string_keys}
use pyinc.Kernel.Node.{NodeKey, same_key, same_key_refl, node_keys, contains, add}
use pyinc.Kernel.Program.{Error, Input, Outcome, ok, raise}
use pyinc.Kernel.State.{
  NodeRecord, Database, get_record, forget_query, mark_frame_impure, on_stack, record_dependency,
  discard_uncommitted_query,
}
use pyinc.Kernel.Verify.{policy_conflict, read_input, own_cycle, failed, finish_get}
use pyinc.Kernel.KeySets.{contains-discard}
use pyinc.Kernel.Eviction.{IsIndexed}

contains-add : (k : NodeKey) (ks : List NodeKey) → contains k (add k ks) ≡ true
unfolding add contains
contains-add k ks = elim (Bool-cases (contains k ks)) [
  | inl has ↦ rw has has
  | inr new ↦ ground (arith, new, same_key_refl k)
]

contains-add_other :
    (k j : NodeKey) (ks : List NodeKey) → contains j ks ≡ true → contains j (add k ks) ≡ true
unfolding add contains
contains-add_other k j ks h = elim (Bool-cases (contains k ks)) [
  | inl has ↦ rw has h
  | inr new ↦ elim (Bool-cases (same_key k j)) [
    | inl same ↦ ground (arith, new, same)
    | inr other ↦ ground (arith, new, other, h)
  ]
]

contains-cong :
    (k j : NodeKey) (ks : List NodeKey)
    → same_key k j ≡ true
    → contains k ks ≡ true
    → contains j ks ≡ true
unfolding contains
contains-cong k j [] same h = absurd cc
contains-cong k j (i ∷ ks) same h = elim (Bool-cases (same_key i k)) [
  | inl here ↦ ground (arith, node_keys.same_trans i k j here same)
  | inr other ↦ ground (arith, other, h, contains-cong k j ks same)
]

module _ {S : Type 0} where
  abbrev IsStored : NodeKey → Database S → Type 0
  IsStored k s = is_some (get_record k s) ≡ true

  -- Records stay, and the set of keys goes on to have every query with a record.
  pub record Grows (s s' : Database S) : Type 0 where
    pub stored : (k : NodeKey) → is_some (get_record k s) ≡ true → is_some (get_record k s') ≡ true
    pub indexed : IsIndexed s → IsIndexed s'

  pub Grows-trans : (s t u : Database S) → Grows s t → Grows t u → Grows s u
  Grows-trans s t u a b = record {
    stored = λ k h. b.stored k (a.stored k h);
    indexed = λ h. b.indexed (a.indexed h);
  }

  -- A step that leaves the records and the set alone
  pub same_records :
      (s s' : Database S) → s'.records ≡ s.records → s'.query_records ≡ s.query_records → Grows s s'
  same_records s s' r q =
      let found : (k : NodeKey) → get_record k s' ≡ get_record k s = λ k. ap (find node_keys k) r in
      record {
        stored = λ k h. ap is_some (found k) ∙ h;
        indexed =
            λ h k is_query has. ap (contains k) q ∙ h k is_query (sym (ap is_some (found k)) ∙ has);
      }

  pub Grows-refl : (s : Database S) → Grows s s
  Grows-refl s = same_records s s refl refl

  put-stored :
      (k j : NodeKey) (r : NodeRecord S) (s : Database S)
      → IsStored j s
      → is_some (find node_keys j (put node_keys k r s.records)) ≡ true
  put-stored k j r s h = ground (arith, h, find-put node_keys k j r s.records)

  put-old :
      (k j : NodeKey) (r : NodeRecord S) (s : Database S)
      → is_some (find node_keys j (put node_keys k r s.records)) ≡ true
      → same_key k j ≡ false
      → IsStored j s
  put-old k j r s h other = ground (arith, h, other, find-put node_keys k j r s.records)

  -- A record is written again.
  pub rewritten :
      (k : NodeKey) (r : NodeRecord S) (s s' : Database S)
      → IsStored k s
      → s'.records ≡ put node_keys k r s.records
      → s'.query_records ≡ s.query_records
      → Grows s s'
  rewritten k r s s' has e q = record {
    stored = λ j h. ap (λ m. is_some (find node_keys j m)) e ∙ put-stored k j r s h;
    indexed = λ h j is_query now.
        ap (contains j) q
        ∙ h j is_query (elim (Bool-cases (same_key k j)) [
          | inl same ↦ ap is_some (sym (find-cong node_keys k j s.records same)) ∙ has
          | inr other ↦ put-old k j r s (sym (ap (λ m. is_some (find node_keys j m)) e) ∙ now) other
        ]);
  }

  -- A record is written, and its key added to the set.
  pub committed :
      (k : NodeKey) (r : NodeRecord S) (s s' : Database S)
      → s'.records ≡ put node_keys k r s.records
      → s'.query_records ≡ add k s.query_records
      → Grows s s'
  committed k r s s' e q = record {
    stored = λ j h. ap (λ m. is_some (find node_keys j m)) e ∙ put-stored k j r s h;
    indexed = λ h j is_query now. ap (contains j) q ∙ (elim (Bool-cases (same_key k j)) [
      | inl same ↦ contains-cong k j (add k s.query_records) same (contains-add k s.query_records)
      | inr other ↦ contains-add_other k j s.query_records (
          h j is_query
            (put-old k j r s (sym (ap (λ m. is_some (find node_keys j m)) e) ∙ now) other))
    ]);
  }

  -- A query that had no record before is discarded.
  forgotten :
      (k : NodeKey) (s t : Database S)
      → is_some (get_record k s) ≡ false
      → Grows s t
      → Grows s (forget_query k t)
  forgotten k s t cold h = record {
    stored = λ j has. elim (Bool-cases (same_key k j)) [
      | inl same ↦ absurd (cc (cold, has, ap is_some (find-cong node_keys k j s.records same)))
      | inr other ↦ ground (arith, other, h.stored j has, find-remove node_keys k j t.records)
    ];
    indexed = λ before j is_query now. elim (Bool-cases (same_key k j)) [
      | inl same ↦ absurd (ground (arith, same, now, find-remove node_keys k j t.records))
      | inr other ↦ contains-discard k j t.query_records other (
          h.indexed before j is_query
            (ground (arith, other, now, find-remove node_keys k j t.records)))
    ];
  }

  pub read_input-Grows : (i : Input S) (s : Database S) → Grows s (read_input i s).1
  unfolding read_input record_dependency
  read_input-Grows i s = elim (Bool-cases (policy_conflict i s)) [
    | inl conflict ↦ rw conflict (Grows-refl s)
    | inr free ↦ elim (Option-cases (find string_keys i.key s.input_records)) [
      | inl missing ↦ rw (free, missing) (Grows-refl s)
      | inr (k, at) ↦ elim (Option-cases (get_record k s)) [
        | inl gone ↦
            let same : (read_input i s).1 ≡ s = ground (arith, free, at, gone) in
            subst (Grows s) (sym same) (Grows-refl s)
        | inr (r, found) ↦
            let same : (read_input i s).1 ≡ record_dependency k s =
              ground (arith, free, at, found) in
            subst (Grows s) (sym same) (same_records s (record_dependency k s) refl refl)
      ]
    ]
  ]

  discarded :
      (k : NodeKey) (s t : Database S)
      → is_some (get_record k s) ≡ false
      → Grows s t
      → Grows s (discard_uncommitted_query k t)
  unfolding discard_uncommitted_query
  discarded k s t cold h = elim (Bool-cases (on_stack k t.execution_stack)) [
    | inl running ↦
        let same : discard_uncommitted_query k t ≡ t = ground (arith, running) in
        subst (Grows s) (sym same) h
    | inr idle ↦
        let same : discard_uncommitted_query k t ≡ forget_query k t = ground (arith, idle) in
        subst (Grows s) (sym same) (forgotten k s t cold h)
  ]

  unless_marked :
      (b : Bool) (why : String) (s : Database S)
      → Grows s (if b then s else mark_frame_impure why s)
  unfolding mark_frame_impure
  unless_marked true why s = Grows-refl s
  unless_marked false why s = same_records s (mark_frame_impure why s) refl refl

  failed-Grows :
      (b : Bool) (k : NodeKey) (e : Error) (s t : Database S)
      → is_some (get_record k s) ≡ b
      → Grows s t
      → Grows s (failed b k e t)
  unfolding failed
  failed-Grows true k e s t was h = Grows-trans s t (failed true k e t) h (
      unless_marked (own_cycle e k t.execution_stack)
        (text_append "caught exception from sub-query '" (text_append k.label "'")) t)
  failed-Grows false k e s t was h =
      let d = discard_uncommitted_query k t in
      Grows-trans s d (failed false k e t) (discarded k s t was h) (
        unless_marked (own_cycle e k d.execution_stack)
          (text_append "caught exception from sub-query '" (text_append k.label "'")) d)

  pub finish_get-Grows :
      (k : NodeKey) (s : Database S) (r : Outcome (Unit {0}) × Database S)
      → Grows s r.1
      → Grows s (finish_get (is_some (get_record k s)) k r).1
  unfolding finish_get record_dependency
  finish_get-Grows k s (ok u, t) h =
      let same : (finish_get (is_some (get_record k s)) k (ok u, t)).1 ≡ record_dependency k t =
        elim (Option-cases (get_record k t)) [
          | inl missing ↦ ground (arith, missing)
          | inr (r, found) ↦ ground (arith, found)
        ] in
      subst (Grows s) (sym same) (
        Grows-trans s t (record_dependency k t) h
          (same_records t (record_dependency k t) refl refl))
  finish_get-Grows k s (raise e, t) h = failed-Grows (is_some (get_record k s)) k e s t refl h
