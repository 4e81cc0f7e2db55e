-- ===== src/Domain/Window/Holdings.antt =====
-- What the counting loop of `busiest_components_oldest` (src/domain.rs) computes: how many entries
-- of the window each component has, and where the first of them stands.
use egressy.Base.{
  ℕ, suc, ◌+◌, ◌<◌, ◌≡◌, refl, subst, sym, String, true, false, Option, none, some, List, [], ◌∷◌,
  Map, lookup, insert, string_key, lookup-insert, insert-Distinct, Distinct, ◌==◌, if◌then◌else◌,
  get_elem?, str_eq, eq_iff, arith, Bool-cases, inl, inr,
}
use egressy.Domain.{Transition}
use egressy.Domain.Window.{Holding, counted, tally}

-- How many entries are of a component.
abbrev pub held : String → List Transition → ℕ
held c [] = 0
held c (t ∷ ts) = let rest = held c ts in if str_eq t.component c then suc rest else rest

-- The index of a component's first entry, the window's length if it has none.
abbrev pub first_of : String → List Transition → ℕ
first_of c [] = 0
first_of c (t ∷ ts) = let rest = first_of c ts in if str_eq t.component c then 0 else suc rest

abbrev pub tallied : Option Holding → ℕ → String → List Transition → Option Holding
tallied none index c ts =
    if held c ts == 0
    then none
    else some (record { count = held c ts; oldest = index + first_of c ts })
tallied (some h) index c ts = some (record h { count = h.count + held c ts })

tallied_nil : (o : Option Holding) (index : ℕ) (c : String) → o ≡ tallied o index c []
tallied_nil none index c = refl
tallied_nil (some h) index c = ground arith

tallied_same :
    (o : Option Holding) (index : ℕ) (c : String) (t : Transition) (ts : List Transition)
    → str_eq t.component c ≡ true
    → tallied (some (counted o index)) (suc index) c ts ≡ tallied o index c (t ∷ ts)
tallied_same none index c t ts e = ground arith
tallied_same (some h) index c t ts e = ground arith

tallied_other :
    (o : Option Holding) (index : ℕ) (c : String) (t : Transition) (ts : List Transition)
    → str_eq t.component c ≡ false
    → tallied o (suc index) c ts ≡ tallied o index c (t ∷ ts)
tallied_other none index c t ts e = ground arith
tallied_other (some h) index c t ts e = ground arith

pub lookup-tally :
    (c : String) (index : ℕ) (ts : List Transition) (m : Map String Holding)
    → lookup c (tally index ts m) ≡ tallied (lookup c m) index c ts
unfolding tally
lookup-tally c index [] m = tallied_nil (lookup c m) index c
lookup-tally c index (t ∷ ts) m =
    rw
      (
        lookup-tally c (suc index) ts (insert t.component (counted (lookup t.component m) index) m),
        lookup-insert t.component c (counted (lookup t.component m) index) m,
      )
      (elim (Bool-cases (str_eq t.component c)) [
        | inl e ↦ rw e (
            subst
              (λ k.
                tallied (some (counted (lookup k m) index)) (suc index) c ts
                ≡ tallied (lookup c m) index c (t ∷ ts))
              (sym ((eq_iff t.component c).0 e)) (tallied_same (lookup c m) index c t ts e))
        | inr n ↦ rw n (tallied_other (lookup c m) index c t ts n)
      ])

pub tally-Distinct :
    (index : ℕ) (ts : List Transition) (m : Map String Holding)
    → Distinct m
    → Distinct (tally index ts m)
unfolding tally
tally-Distinct index [] m d = d
tally-Distinct index (t ∷ ts) m d =
    tally-Distinct (suc index) ts _
      (insert-Distinct t.component (counted (lookup t.component m) index) m d)

pub get_elem?-first_of :
    (c : String) (ts : List Transition)
    → 0 < held c ts
    → (t : Transition) × (get_elem? ts (first_of c ts) ≡ some t) × (t.component ≡ c)
get_elem?-first_of c [] h = absurd (omega arith)
get_elem?-first_of c (t ∷ ts) h = elim (Bool-cases (str_eq t.component c)) [
  | inl e ↦ (t, rw e refl, (eq_iff t.component c).0 e)
  | inr n ↦ rw n (get_elem?-first_of c ts (ground arith))
]
