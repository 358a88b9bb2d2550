-- ===== src/Store.antt =====
-- store.py, `InMemoryArtifactStore`: a write-once store of payloads by their digest. A payload is of
-- any type with an equality. `put` runs under the lock of the store; `get` and `contains`, which take
-- none, are one look-up in the dictionary each.
mod Tests
use text.Mathlib.Text.{◌==◌ as str_eq}
use text.Mathlib.TextEquality.{eq_iff}
use pyinc.Prelude.{
  ◌≡◌, refl, sym, ◌∙◌, ap, Bool, ◌||◌, ◌⊎◌, true, false, Bool-cases, Option, none, some,
  Option-cases, is_some, List, [], ◌∷◌, String, arith, inl, inr, if◌then◌else◌,
}
use pyinc.Assoc.{KeyEq, find, string_keys, find-put, find-cong, find-put_self}
use pyinc.Assoc

pub data PutResult : Type 0 where
  done : PutResult
  value_error : String → PutResult

module _ {P : Type 0} (payloads : KeyEq P) where
  abbrev pub Items : Type 0
  Items = List (String × P)

  unfoldable pub get : String → Items → Option P
  get digest items = find string_keys digest items

  unfoldable pub contains : String → Items → Bool
  contains digest items = is_some (find string_keys digest items)

  unfoldable pub put : String → P → Items → PutResult × Items
  put digest payload items = elim (find string_keys digest items) [
    | none ↦ (done, Assoc.put string_keys digest payload items)
    | some existing ↦
        if payloads.same existing payload then (done, items) else (value_error digest, items)
  ]

  -- Several calls of `put`, by any threads, in the order in which they take the lock
  unfoldable pub puts : List (String × P) → Items → Items
  puts [] items = items
  puts ((digest, payload) ∷ ops) items = puts ops (put digest payload items).1

  -- What a write-once store holds: the payload of the first put under a digest.
  unfoldable pub first : String → List (String × P) → Option P
  first digest [] = none
  first digest ((j, payload) ∷ ops) =
      let rest = first digest ops in if str_eq j digest then some payload else rest

  module _ (digest : String) (payload : P) (items : Items) where
    put-new :
        get digest items ≡ none
        → (put digest payload items).1 ≡ Assoc.put string_keys digest payload items
    unfolding put get
    put-new new = ground (arith, new)

    put-old : (old : P) → get digest items ≡ some old → (put digest payload items).1 ≡ items
    unfolding put get
    put-old old at = ground (arith, at)

    get-put :
        (other : String)
        → get other (put digest payload items).1 ≡ elim (get other items) [
          | none ↦ if str_eq digest other then some payload else none
          | some old ↦ some old
        ]
    unfolding get
    get-put other = elim (Option-cases (find string_keys digest items)) [
      | inl new ↦
          ap (find string_keys other) (put-new new)
          ∙ ground (
            arith,
            find-put string_keys digest other payload items,
            find-cong string_keys digest other items,
            new,
          )
      | inr (old, at) ↦
          ap (find string_keys other) (put-old old at)
          ∙ ground (arith, find-cong string_keys digest other items, at)
    ]

    -- Where `put` returns, the store holds the payload, or one that is equal to it. Where it
    -- raises, the store holds a different payload under the digest, and is as it was.
    pub put-outcome :
        (((put digest payload items).0 ≡ done)
          × ((held : P) × (get digest (put digest payload items).1 ≡ some held)
              × (payloads.same held payload ≡ true)))
        ⊎ (((put digest payload items).0 ≡ value_error digest)
            × ((put digest payload items).1 ≡ items)
            × ((held : P) × (get digest items ≡ some held) × (payloads.same held payload ≡ false)))
    unfolding put get
    put-outcome = elim (Option-cases (find string_keys digest items)) [
      | inl new ↦ inl (
        ground (arith, new),
        (
          payload,
          ap (find string_keys digest) (put-new new)
              ∙ find-put_self string_keys digest payload items,
          payloads.same_refl payload,
        ),
      )
      | inr (old, at) ↦ elim (Bool-cases (payloads.same old payload)) [
        | inl equal ↦ inl (
          ground (arith, at, equal),
          (old, ap (find string_keys digest) (put-old old at) ∙ at, equal),
        )
        | inr differs ↦ inr (ground (arith, at, differs), put-old old at, (old, at, differs))
      ]
    ]

  -- A store that any number of threads put to, in any order, holds under each digest the payload of
  -- the first put that took the lock, or what it held before them all. No put rebinds a digest.
  pub get-puts :
      (digest : String) (ops : List (String × P)) (items : Items)
      → get digest (puts ops items)
        ≡ elim (get digest items) [ none ↦ first digest ops | some old ↦ some old ]
  unfolding puts first
  get-puts digest [] items = ground arith
  get-puts digest ((j, payload) ∷ ops) items =
      get-puts digest ops (put j payload items).1 ∙ ground (arith, get-put j payload items digest)

  -- `contains` agrees with `get` after any puts.
  pub contains-puts :
      (digest : String) (ops : List (String × P)) (items : Items)
      → contains digest (puts ops items) ≡ (contains digest items || is_some (first digest ops))
  unfolding contains get
  contains-puts digest ops items = ground (arith, get-puts digest ops items)
