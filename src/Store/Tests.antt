-- ===== src/Store/Tests.antt =====
-- Runs of the in-memory store, with texts for payloads.
use pyinc.Prelude.{◌≡◌, refl, ◌⊎◌, true, false, none, some, List, [], ◌∷◌, String}
use pyinc.Assoc.{string_keys}
use pyinc.Store.{done, value_error, get, put, puts, first, get-puts, put-outcome}

-- Two threads put under one digest, and the second has other bytes.
abbrev race : List (String × String)
race = ("d1", "left") ∷ ("d2", "alone") ∷ ("d1", "right") ∷ []

race-get : get string_keys "d1" (puts string_keys race []) ≡ some "left"
unfolding get puts put pyinc.Assoc.find pyinc.Assoc.put
race-get = refl

get-puts_example :
    get string_keys "d1" (puts string_keys race [])
    ≡ elim (get string_keys "d1" []) [ none ↦ first string_keys "d1" race | some old ↦ some old ]
get-puts_example = get-puts string_keys "d1" race []

abbrev held : List (String × String)
held = ("d1", "left") ∷ []

put-outcome_example :
    (((put string_keys "d1" "right" held).0 ≡ done)
      × ((x : String) × (get string_keys "d1" (put string_keys "d1" "right" held).1 ≡ some x)
          × (string_keys.same x "right" ≡ true)))
    ⊎ (((put string_keys "d1" "right" held).0 ≡ value_error "d1")
        × ((put string_keys "d1" "right" held).1 ≡ held)
        × ((x : String) × (get string_keys "d1" held ≡ some x)
            × (string_keys.same x "right" ≡ false)))
put-outcome_example = put-outcome string_keys "d1" "right" held
