-- ===== src/Domain/Window/Busiest.antt =====
-- Which index `busiest_components_oldest` (src/domain.rs) picks.
use egressy.Base.{
  ℕ, ◌<◌, ◌≤◌, ◌≡◌, refl, sym, String, none, some, List, [], ◌∷◌, Map, lookup, string_key, Distinct,
  if◌then◌else◌, get_elem?, str_eq, eq_iff, arith, Bool-cases, Option-cases, dec_lt, inl, inr, ◌⊎◌,
  ◌∙◌, subst,
}
use egressy.Domain.{Transition}
use egressy.Domain.Window.{
  Holding, tally, outranks, busiest, oldest_of_busiest, busiest_components_oldest,
}
use egressy.Domain.Window.Holdings.{
  held, first_of, lookup-tally, tally-Distinct, get_elem?-first_of,
}

-- More entries, or as many and the first of them no later.
abbrev pub Dominates : Holding → Holding → Type 0
Dominates a b = (b.count < a.count) ⊎ ((b.count ≡ a.count) × (a.oldest ≤ b.oldest))

busiest-Dominates_start :
    (best : Holding) (m : Map String Holding) → Dominates (busiest best m) best
unfolding busiest
busiest-Dominates_start best [] = ground arith
busiest-Dominates_start best ((c, h) ∷ m) =
    ground (arith, busiest-Dominates_start (if outranks h best then h else best) m)

busiest-Dominates :
    (best : Holding) (m : Map String Holding) (d : String) (g : Holding)
    → lookup d m ≡ some g
    → Dominates (busiest best m) g
unfolding busiest lookup
busiest-Dominates best [] d g e = ground arith
busiest-Dominates best ((c, h) ∷ m) d g e = ground (
  arith,
  busiest-Dominates_start (if outranks h best then h else best) m,
  busiest-Dominates (if outranks h best then h else best) m d g,
)

busiest_found :
    (best : Holding) (m : Map String Holding)
    → Distinct m
    → (busiest best m ≡ best) ⊎ ((c : String) × (lookup c m ≡ some (busiest best m)))
unfolding busiest lookup
busiest_found best [] d = inl refl
busiest_found best ((c, h) ∷ m) d =
    elim (busiest_found (if outranks h best then h else best) m d.1) [
      | inl kept ↦ elim (Bool-cases (outranks h best)) [
        | inl e ↦ inr (c, ground (arith, eq_iff c c, kept))
        | inr n ↦ inl (kept ∙ rw n)
      ]
      | inr (a, e) ↦ inr (a, ground (arith, eq_iff c a, d.0))
    ]

-- What the loop's table says of the index that is picked.
oldest_of_busiest_found :
    (m : Map String Holding) (i : ℕ)
    → Distinct m
    → oldest_of_busiest m ≡ some i
    → (c : String) × (h : Holding) × (lookup c m ≡ some h)
      × (h.oldest ≡ i)
      × ((d : String) (g : Holding) → lookup d m ≡ some g → Dominates h g)
unfolding oldest_of_busiest lookup
oldest_of_busiest_found [] i d e = cc
oldest_of_busiest_found ((c, h) ∷ m) i d e = elim (busiest_found h m d.1) [
  | inl kept ↦ (
    c,
    h,
    ground (arith, eq_iff c c),
    ground (arith, kept),
    λ a g q. elim (Bool-cases (str_eq c a)) [
      | inl same ↦ ground arith
      | inr other ↦ ground (arith, kept, busiest-Dominates h m a g)
    ],
  )
  | inr (a, found) ↦ (
    a,
    busiest h m,
    ground (arith, eq_iff c a, d.0),
    ground arith,
    λ b g q. elim (Bool-cases (str_eq c b)) [
      | inl same ↦ ground (arith, busiest-Dominates_start h m)
      | inr other ↦ ground (arith, busiest-Dominates h m b g)
    ],
  )
]

held_of_tally :
    (c : String) (ts : List Transition) (h : Holding)
    → lookup c (tally 0 ts []) ≡ some h
    → (h.count ≡ held c ts) × (h.oldest ≡ first_of c ts) × (0 < held c ts)
unfolding lookup
held_of_tally c ts h e = ground (arith, lookup-tally c 0 ts [])

tally_of_held :
    (c : String) (ts : List Transition)
    → 0 < held c ts
    → lookup c (tally 0 ts []) ≡ some (record { count = held c ts; oldest = first_of c ts })
unfolding lookup
tally_of_held c ts h = ground (arith, lookup-tally c 0 ts [])

-- The component starts at the index, and no other has more entries, or as many and an earlier one.
abbrev IsBusiest : List Transition → ℕ → String → Type 0
IsBusiest ts i c =
    (first_of c ts ≡ i)
    × ((d : String) → (held d ts < held c ts) ⊎ ((held d ts ≡ held c ts) × (i ≤ first_of d ts)))

held-IsBusiest :
    (ts : List Transition) (i : ℕ) (c : String) (h : Holding)
    → (h.count ≡ held c ts) × (h.oldest ≡ first_of c ts)
    → h.oldest ≡ i
    → ((d : String) (g : Holding) → lookup d (tally 0 ts []) ≡ some g → Dominates h g)
    → 0 < held c ts
    → IsBusiest ts i c
held-IsBusiest ts i c h is at best pos = (
  omega arith,
  λ d. elim (dec_lt 0 (held d ts)) [
    | yes there ↦ ground (
      arith,
      best d (record { count = held d ts; oldest = first_of d ts }) (tally_of_held d ts there),
    )
    | no nowhere ↦ inl (omega arith)
  ],
)

-- The index that is picked holds a transition whose component has no earlier entry in the window,
-- and every component has fewer entries than it, or as many and a first entry no earlier.
pub busiest_components_oldest_lem :
    (ts : List Transition) (i : ℕ)
    → busiest_components_oldest ts ≡ some i
    → (t : Transition) × (get_elem? ts i ≡ some t)
      × (first_of t.component ts ≡ i)
      × ((d : String)
          → (held d ts < held t.component ts)
            ⊎ ((held d ts ≡ held t.component ts) × (i ≤ first_of d ts)))
unfolding busiest_components_oldest
busiest_components_oldest_lem ts i e =
    let (c, h, found, at, best) =
      oldest_of_busiest_found (tally 0 ts []) i (tally-Distinct 0 ts [] tt) e in
    let (many, first, some_held) = held_of_tally c ts h found in
    let (t, here, comp) = get_elem?-first_of c ts some_held in
    let (starts, most) =
      subst (IsBusiest ts i) (sym comp) (held-IsBusiest ts i c h (many, first) at best some_held) in
    (t, subst (λ k. get_elem? ts k ≡ some t) (sym first ∙ at) here, starts, most)

oldest_of_busiest-none : (m : Map String Holding) → oldest_of_busiest m ≡ none → m ≡ []
unfolding oldest_of_busiest
oldest_of_busiest-none [] e = refl
oldest_of_busiest-none ((c, h) ∷ m) e = cc

-- A window with an entry has an index to evict.
pub busiest_components_oldest-ne_none :
    (t : Transition) (ts : List Transition)
    → (i : ℕ) × (busiest_components_oldest (t ∷ ts) ≡ some i)
unfolding busiest_components_oldest lookup
busiest_components_oldest-ne_none t ts =
    elim (Option-cases (oldest_of_busiest (tally 0 (t ∷ ts) []))) [
      | inl e ↦ absurd (empty e)
      | inr (i, e) ↦ (i, e)
    ]
  where
    empty : oldest_of_busiest (tally 0 (t ∷ ts) []) ≡ none → ⊥
    empty e = cc (
      tally_of_held t.component (t ∷ ts) (ground (arith, eq_iff t.component t.component)),
      oldest_of_busiest-none (tally 0 (t ∷ ts) []) e,
    )
