-- ===== src/Document/Chains.antt =====
-- pyinc_tools/_document.py: the lines of a source follow one another, and where a search for an offset
-- ends.
use pyinc.Prelude.{
  ℕ, zero, suc, ◌+◌, ◌-◌, ◌≤◌, ◌<◌, ◌≡◌, refl, sym, ap, ap₂, ◌∙◌, arith, ◌⊎◌, inl, inr, Bool, true,
  false, ◌&&◌, ◌||◌, some, List, [], ◌∷◌, if◌then◌else◌, some_eq, ◌==◌, length, get_elem?,
}
use mathlib.Core.Path.{subst}
use pyinc.Document.Lines.{Text, Bounds, bounds_from, Located, found, locate}

-- Lines that follow each other from `start` to `end`: an ending has one or two characters, the last line none.
pub IsChain : ℕ → ℕ → List Bounds → Type 0
IsChain start end [] = ⊥
IsChain start end (b ∷ []) =
    (b.start ≡ start) × ((b.start ≤ b.content_end) × ((b.content_end ≡ end) × (b.next_start ≡ end)))
IsChain start end (b ∷ (d ∷ bounds)) =
    (b.start ≡ start)
    × ((b.start ≤ b.content_end)
        × ((b.content_end < b.next_start)
            × ((b.next_start ≤ 2 + b.content_end) × IsChain b.next_start end (d ∷ bounds))))

IsChain-cons :
    (b : Bounds) (end : ℕ) (bounds : List Bounds)
    → b.start ≤ b.content_end
    → b.content_end < b.next_start
    → b.next_start ≤ 2 + b.content_end
    → IsChain b.next_start end bounds
    → IsChain b.start end (b ∷ bounds)
unfolding IsChain
IsChain-cons b end [] h k l chain = absurd chain
IsChain-cons b end (d ∷ bounds) h k l chain = (refl, (h, (k, (l, chain))))

if-IsChain :
    (b : Bool) (start end : ℕ) (xs ys : List Bounds)
    → IsChain start end xs
    → IsChain start end ys
    → IsChain start end (if b then xs else ys)
if-IsChain true start end xs ys h k = h
if-IsChain false start end xs ys h k = k

pub bounds_from-IsChain :
    (start at end : ℕ) (s : Text)
    → start ≤ at
    → at + length s ≡ end
    → IsChain start end (bounds_from start at s)
unfolding bounds_from IsChain
bounds_from-IsChain start at end [] h e = (refl, (h, (omega arith, omega arith)))
bounds_from-IsChain start at end (c ∷ []) h e =
    if-IsChain (c == 10 || c == 13) start end _ _
      (refl, (h, (omega arith, (omega arith, (refl, (omega arith, (omega arith, omega arith)))))))
      (refl, (omega arith, (omega arith, omega arith)))
bounds_from-IsChain start at end (c ∷ (d ∷ s)) h e =
    if-IsChain (c == 13 && d == 10) start end _ _
      (IsChain-cons (record { start = start; content_end = at; next_start = at + 2 }) end
        (bounds_from (at + 2) (at + 2) s) h (omega arith) (omega arith)
        (bounds_from-IsChain (at + 2) (at + 2) end s (omega arith) (omega arith)))
      (if-IsChain (c == 10 || c == 13) start end _ _
        (IsChain-cons (record { start = start; content_end = at; next_start = at + 1 }) end
          (bounds_from (at + 1) (at + 1) (d ∷ s)) h (omega arith) (omega arith)
          (bounds_from-IsChain (at + 1) (at + 1) end (d ∷ s) (omega arith) (omega arith)))
        (bounds_from-IsChain start (at + 1) end (d ∷ s) (omega arith) (omega arith)))

chain-length : (start end : ℕ) (bounds : List Bounds) → IsChain start end bounds → start ≤ end
unfolding IsChain
chain-length start end [] chain = absurd chain
chain-length start end (b ∷ []) chain = omega (arith, chain.0, chain.1.0, chain.1.1.0)
chain-length start end (b ∷ (d ∷ bounds)) chain = omega (
  arith,
  chain.0,
  chain.1.0,
  chain.1.1.0,
  chain-length b.next_start end (d ∷ bounds) chain.1.1.1.1,
)

-- A place that lies in a line, and the line.
unfoldable pub IsIn : ℕ → ℕ → Bounds → Type 0
IsIn start end b = (start ≤ b.start) × ((b.start ≤ b.content_end) × (b.content_end ≤ end))

pub chain-line :
    (start end i : ℕ) (bounds : List Bounds) (b : Bounds)
    → IsChain start end bounds
    → get_elem? bounds i ≡ some b
    → IsIn start end b
unfolding IsChain IsIn
chain-line start end i [] b chain h = absurd chain
chain-line start end zero (x ∷ []) b chain h =
    subst (IsIn start end) (some_eq h)
      (omega (arith, chain.0), (chain.1.0, omega (arith, chain.1.1.0)))
chain-line start end (suc i) (x ∷ []) b chain h = absurd cc
chain-line start end zero (x ∷ (y ∷ bounds)) b chain h =
    let bound = chain-length x.next_start end (y ∷ bounds) chain.1.1.1.1 in
    subst (IsIn start end) (some_eq h)
      (omega (arith, chain.0), (chain.1.0, omega (arith, chain.1.1.0, bound)))
chain-line start end (suc i) (x ∷ (y ∷ bounds)) b chain h =
    let tail = chain-line x.next_start end i (y ∷ bounds) b chain.1.1.1.1 h in
    (omega (arith, chain.0, chain.1.0, chain.1.1.0, tail.0), tail.1)

abbrev pub at_place : ℕ → ℕ → Located
at_place line character = found (record { line = line; character = character })

locate-here :
    (line offset : ℕ) (b : Bounds) (bounds : List Bounds)
    → offset ≤ b.content_end
    → locate line offset (b ∷ bounds) ≡ at_place line (offset - b.start)
unfolding locate
locate-here line offset b bounds h = ground arith

locate-break :
    (line offset : ℕ) (b : Bounds) (bounds : List Bounds)
    → b.content_end < offset
    → offset < b.next_start
    → locate line offset (b ∷ bounds) ≡ at_place line (b.content_end - b.start)
unfolding locate
locate-break line offset b bounds h k = ground arith

locate-later :
    (line offset : ℕ) (b : Bounds) (bounds : List Bounds)
    → b.content_end < offset
    → b.next_start ≤ offset
    → locate line offset (b ∷ bounds) ≡ locate (suc line) offset bounds
unfolding locate
locate-later line offset b bounds h k = ground arith

-- The line that a place of the chain lies in is the one that is found for it.
pub locate-line :
    (start end line i character : ℕ) (bounds : List Bounds) (b : Bounds)
    → IsChain start end bounds
    → get_elem? bounds i ≡ some b
    → character ≤ b.content_end - b.start
    → locate line (b.start + character) bounds ≡ at_place (line + i) character
unfolding IsChain IsIn
locate-line start end line i character [] b chain h k = absurd chain
locate-line start end line zero character (x ∷ bounds) b chain h k =
    let inside = chain-line start end 0 (x ∷ bounds) b chain h in
    let end_eq : b.content_end ≡ x.content_end = ap (λ y. y.content_end) (sym (some_eq h)) in
    let start_eq : b.start ≡ x.start = ap (λ y. y.start) (sym (some_eq h)) in
    locate-here line (b.start + character) x bounds (omega (arith, inside.1.0, end_eq, k))
    ∙ ap₂ at_place (omega arith) (omega (arith, start_eq))
locate-line start end line (suc i) character (x ∷ []) b chain h k = absurd cc
locate-line start end line (suc i) character (x ∷ (y ∷ bounds)) b chain h k =
    let tail = chain-line x.next_start end i (y ∷ bounds) b chain.1.1.1.1 h in
    locate-later line (b.start + character) x (y ∷ bounds) (omega (arith, chain.1.1.0, tail.0))
      (omega (arith, tail.0))
    ∙ locate-line x.next_start end (suc line) i character (y ∷ bounds) b chain.1.1.1.1 h k
    ∙ ap (λ l. at_place l character) (omega arith)

le-or-lt : (a b : ℕ) → (a ≤ b) ⊎ (b < a)
le-or-lt a b = ground arith

-- What is found for an offset: a place of the line that it lies in, at the offset or one before it.
unfoldable pub IsFound : ℕ → ℕ → List Bounds → Type 0
IsFound line offset bounds =
    (i : ℕ) × ((b : Bounds) × ((character : ℕ) × ((get_elem? bounds i ≡ some b)
          × ((locate line offset bounds ≡ at_place (line + i) character)
              × ((character ≤ b.content_end - b.start)
                  × ((b.start + character ≤ offset) × (offset ≤ 1 + (b.start + character))))))))

pub locate-IsFound :
    (start end line offset : ℕ) (bounds : List Bounds)
    → IsChain start end bounds
    → start ≤ offset
    → offset ≤ end
    → IsFound line offset bounds
unfolding IsChain IsFound
locate-IsFound start end line offset [] chain h k = absurd chain
locate-IsFound start end line offset (x ∷ []) chain h k = (
  0,
  (
    x,
    (
      offset - x.start,
      (
        refl,
        (
          locate-here line offset x [] (omega (arith, chain.1.1.0))
              ∙ ap (λ l. at_place l (offset - x.start)) (omega arith),
          (omega (arith, chain.1.1.0), (omega (arith, chain.0), omega arith)),
        ),
      ),
    ),
  ),
)
locate-IsFound start end line offset (x ∷ (y ∷ bounds)) chain h k =
    elim (le-or-lt offset x.content_end) [
      | inl le ↦ (
        0,
        (
          x,
          (
            offset - x.start,
            (
              refl,
              (
                locate-here line offset x (y ∷ bounds) le
                    ∙ ap (λ l. at_place l (offset - x.start)) (omega arith),
                (omega (arith, le), (omega (arith, chain.0), omega arith)),
              ),
            ),
          ),
        ),
      )
      | inr above ↦ elim (le-or-lt x.next_start offset) [
        | inl le ↦
            let rest =
              locate-IsFound x.next_start end (suc line) offset (y ∷ bounds) chain.1.1.1.1 le k in
            (
              suc rest.0,
              (
                rest.1.0,
                (
                  rest.1.1.0,
                  (
                    rest.1.1.1.0,
                    (
                      locate-later line offset x (y ∷ bounds) above le
                          ∙ rest.1.1.1.1.0
                          ∙ ap (λ l. at_place l rest.1.1.0) (omega arith),
                      rest.1.1.1.1.1,
                    ),
                  ),
                ),
              ),
            )
        | inr below ↦ (
          0,
          (
            x,
            (
              x.content_end - x.start,
              (
                refl,
                (
                  locate-break line offset x (y ∷ bounds) above below
                      ∙ ap (λ l. at_place l (x.content_end - x.start)) (omega arith),
                  (
                    omega arith,
                    (
                      omega (arith, chain.1.0, above),
                      omega (arith, chain.1.1.1.0, chain.1.0, below),
                    ),
                  ),
                ),
              ),
            ),
          ),
        )
      ]
    ]
