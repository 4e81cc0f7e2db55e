-- ===== src/Base/Sorted.antt =====
-- `BTreeSet` as a table of units, the keys it needs, `sort_by` and `dedup`.
use Prim.Native.Nat.{ℕ, ◌≤◌}
use mathlib.Core.Path.{◌≡◌, refl}
use mathlib.Core.Logic.{◌↔◌}
use mathlib.Core.Bool.{Bool, true, ◌&&◌, ◌||◌}
use mathlib.Core.List.{List, [], ◌∷◌}
use native.Mathlib.Omega.{arith}
use egressy.Base.Tests.{ltb, ◌==◌, ==_iff, if◌then◌else◌, is_some}
use egressy.Base.Lists.{length, keep, All}
use egressy.Base.Maps.{Key, Map, lookup, insert, AllKeys}

instance abbrev pub nat_key : Key ℕ
nat_key = record { beq = ◌==◌; before = ltb; beq_iff = ==_iff }

module _ {A B : Type 0} ⦃a : Key A⦄ ⦃b : Key B⦄ where
  abbrev pub pair_beq : A × B → A × B → Bool
  pair_beq (x, y) (z, w) = a.beq x z && b.beq y w

  -- The order of a tuple: its first part decides, else the rest.
  abbrev pub pair_before : A × B → A × B → Bool
  pair_before (x, y) (z, w) = a.before x z || (a.beq x z && b.before y w)

  pub pair_beq_iff : (p q : A × B) → (pair_beq p q ≡ true) ↔ (p ≡ q)
  pair_beq_iff (x, y) (z, w) = ground (arith, a.beq_iff x z, b.beq_iff y w)

  instance abbrev pub pair_key : Key (A × B)
  pair_key = record { beq = pair_beq; before = pair_before; beq_iff = pair_beq_iff }

abbrev pub Set : Type 0 → Type 0
Set A = Map A (Unit {0})

module _ {A : Type 0} ⦃k : Key A⦄ where
  abbrev pub has : A → Set A → Bool
  has a s = is_some (lookup a s)

  abbrev pub put : A → Set A → Set A
  put a s = insert a tt s

-- The entries in order.
abbrev pub entries : {A : Type 0} → Set A → List A
entries [] = []
entries ((a, u) ∷ s) = a ∷ entries s

pub All-entries :
    {A : Type 0} ⦃k : Key A⦄ (P : A → Type 0) (s : Set A) → AllKeys P s → All P (entries s)
All-entries P [] h = tt
All-entries P ((a, u) ∷ s) h = (h.0, All-entries P s h.1)

module _ {A : Type 0} where
  -- Before the first entry that it does not come after.
  unfoldable pub place_sorted : (A → A → Bool) → A → List A → List A
  place_sorted before x [] = x ∷ []
  place_sorted before x (y ∷ ys) =
      let rest = place_sorted before x ys in if before y x then y ∷ rest else x ∷ y ∷ ys

  -- `sort` and `sort_by`, which keep the order of equal entries.
  unfoldable pub sort_by : (A → A → Bool) → List A → List A
  unfolding place_sorted
  sort_by before [] = []
  sort_by before (x ∷ xs) = place_sorted before x (sort_by before xs)

  -- `dedup`.
  unfoldable pub dedup : (A → A → Bool) → List A → List A
  dedup same [] = []
  dedup same (x ∷ []) = x ∷ []
  dedup same (x ∷ y ∷ ys) = let rest = dedup same (y ∷ ys) in if same x y then rest else x ∷ rest

  keep-place_sorted :
      (before : A → A → Bool) (p : A → Bool) (x : A) (ys : List A)
      → length (keep p (place_sorted before x ys)) ≡ length (keep p (x ∷ ys))
  unfolding place_sorted
  keep-place_sorted before p x [] = refl
  keep-place_sorted before p x (y ∷ ys) = ground (arith, keep-place_sorted before p x ys)

  -- Sorting neither adds an entry nor drops one.
  pub keep-sort_by :
      (before : A → A → Bool) (p : A → Bool) (xs : List A)
      → length (keep p (sort_by before xs)) ≡ length (keep p xs)
  unfolding sort_by
  keep-sort_by before p [] = refl
  keep-sort_by before p (x ∷ xs) =
      ground (arith, keep-place_sorted before p x (sort_by before xs), keep-sort_by before p xs)

  place_sorted-All :
      (P : A → Type 0) (before : A → A → Bool) (x : A) (ys : List A)
      → P x
      → All P ys
      → All P (place_sorted before x ys)
  unfolding place_sorted
  place_sorted-All P before x [] px h = (px, tt)
  place_sorted-All P before x (y ∷ ys) px h = ground (arith, place_sorted-All P before x ys px h.1)

  pub sort_by-All :
      (P : A → Type 0) (before : A → A → Bool) (xs : List A) → All P xs → All P (sort_by before xs)
  unfolding sort_by
  sort_by-All P before [] h = tt
  sort_by-All P before (x ∷ xs) h =
      place_sorted-All P before x (sort_by before xs) h.0 (sort_by-All P before xs h.1)

  -- Where one test follows from another, its entries are no more.
  pub length-keep_mono :
      (p q : A → Bool) (xs : List A)
      → All (λ x. p x ≡ true → q x ≡ true) xs
      → length (keep p xs) ≤ length (keep q xs)
  length-keep_mono p q [] h = omega arith
  length-keep_mono p q (x ∷ xs) h = ground (arith, h.0, length-keep_mono p q xs h.1)
