-- ===== src/Base/Maps.antt =====
-- `BTreeMap` and `HashMap` as association lists. A key type gives its equality and the order in
-- which a table lists its keys: a `BTreeMap` lists them in the order of `Ord`; a `HashMap` in an
-- order that is not specified, so its key type leaves `before` open.
use text.Mathlib.Text.{◌==◌ as str_eq, is_lt}
use text.Mathlib.TextEquality.{eq_iff}
use Prim.Native.String.{String, compare}
use Prim.Native.Nat.{◌+◌, ◌≤◌, ◌<◌}
use mathlib.Core.Path.{◌≡◌, refl}
use mathlib.Core.Logic.{◌↔◌, inl, inr}
use mathlib.Core.Bool.{Bool, true, false}
use mathlib.Core.List.{List, [], ◌∷◌}
use mathlib.Core.Option.{Option, none, some}
use native.Mathlib.Omega.{arith}
use egressy.Base.Tests.{if◌then◌else◌, Bool-cases, is_some}
use egressy.Base.Lists.{length}

pub record Key {ℓ} (A : Type ℓ) : Type ℓ where
  pub beq : A → A → Bool
  pub before : A → A → Bool
  pub beq_iff : (a b : A) → (beq a b ≡ true) ↔ (a ≡ b)

abbrev pub str_before : String → String → Bool
str_before s t = is_lt (compare s t)

instance abbrev pub string_key : Key String
string_key = record { beq = str_eq; before = str_before; beq_iff = eq_iff }

abbrev pub Map {ℓ κ} : Type ℓ → Type κ → Type (ℓ ⊔ κ)
Map K V = List (K × V)

-- `Option::filter`.
abbrev pub filter_some {κ} : {V : Type κ} → (V → Bool) → Option V → Option V
filter_some p none = none
filter_some p (some v) = if p v then some v else none

pub beq_refl {ℓ} : {K : Type ℓ} ⦃k : Key K⦄ (a : K) → k.beq a a ≡ true
beq_refl ⦃k⦄ a = (k.beq_iff a a).1 refl

module _ {ℓ κ} {K : Type ℓ} {V : Type κ} ⦃k : Key K⦄ where
  -- `get`.
  unfoldable pub lookup : K → Map K V → Option V
  lookup a [] = none
  lookup a ((b, v) ∷ m) = if k.beq b a then some v else lookup a m

  -- Gives the key a new value where it stands.
  replace : K → V → Map K V → Map K V
  replace a v [] = []
  replace a v ((b, w) ∷ m) = if k.beq b a then (b, v) ∷ m else (b, w) ∷ replace a v m

  -- Puts a new key before the first one that it comes before.
  place : K → V → Map K V → Map K V
  place a v [] = (a, v) ∷ []
  place a v ((b, w) ∷ m) = if k.before a b then (a, v) ∷ (b, w) ∷ m else (b, w) ∷ place a v m

  -- `insert`.
  unfoldable pub insert : K → V → Map K V → Map K V
  unfolding replace place
  insert a v m = if is_some (lookup a m) then replace a v m else place a v m

  -- `remove`.
  unfoldable pub remove : K → Map K V → Map K V
  remove a [] = []
  remove a ((b, w) ∷ m) = if k.beq b a then remove a m else (b, w) ∷ remove a m

  -- `retain`.
  unfoldable pub retain : (K → V → Bool) → Map K V → Map K V
  retain p [] = []
  retain p ((b, w) ∷ m) = if p b w then (b, w) ∷ retain p m else retain p m

  lookup-replace :
      (a b : K) (v : V) (m : Map K V)
      → is_some (lookup a m) ≡ true
      → lookup b (replace a v m) ≡ (if k.beq a b then some v else lookup b m)
  unfolding lookup replace
  lookup-replace a b v [] h = cc
  lookup-replace a b v ((c, w) ∷ m) h =
      ground (arith, k.beq_iff a b, k.beq_iff c a, k.beq_iff c b, lookup-replace a b v m)

  lookup-place :
      (a b : K) (v : V) (m : Map K V)
      → is_some (lookup a m) ≡ false
      → lookup b (place a v m) ≡ (if k.beq a b then some v else lookup b m)
  unfolding lookup place
  lookup-place a b v [] h = refl
  lookup-place a b v ((c, w) ∷ m) h =
      ground (arith, k.beq_iff a b, k.beq_iff c a, k.beq_iff c b, lookup-place a b v m)

  pub lookup-insert :
      (a b : K) (v : V) (m : Map K V)
      → lookup b (insert a v m) ≡ (if k.beq a b then some v else lookup b m)
  unfolding insert
  lookup-insert a b v m = elim (Bool-cases (is_some (lookup a m))) [
    | inl e ↦ rw e (lookup-replace a b v m e)
    | inr n ↦ rw n (lookup-place a b v m n)
  ]

  pub lookup-insert_self : (a : K) (v : V) (m : Map K V) → lookup a (insert a v m) ≡ some v
  lookup-insert_self a v m = rw (lookup-insert a a v m, beq_refl a)

  pub lookup-remove :
      (a b : K) (m : Map K V) → lookup b (remove a m) ≡ (if k.beq a b then none else lookup b m)
  unfolding lookup remove
  lookup-remove a b [] = ground arith
  lookup-remove a b ((c, w) ∷ m) =
      ground (arith, k.beq_iff a b, k.beq_iff c a, k.beq_iff c b, lookup-remove a b m)

  -- No key stands twice.
  abbrev pub Distinct : Map K V → Type κ
  Distinct [] = Unit
  Distinct ((b, w) ∷ m) = (lookup b m ≡ none) × Distinct m

  replace-Distinct :
      (a : K) (v : V) (m : Map K V)
      → is_some (lookup a m) ≡ true
      → Distinct m
      → Distinct (replace a v m)
  unfolding lookup replace
  replace-Distinct a v [] h d = tt
  replace-Distinct a v ((c, w) ∷ m) h d =
      ground (arith, k.beq_iff a c, k.beq_iff c a, lookup-replace a c v m, replace-Distinct a v m)

  place-Distinct :
      (a : K) (v : V) (m : Map K V)
      → is_some (lookup a m) ≡ false
      → Distinct m
      → Distinct (place a v m)
  unfolding lookup place
  place-Distinct a v [] h d = (refl, tt)
  place-Distinct a v ((c, w) ∷ m) h d =
      ground (arith, k.beq_iff a c, k.beq_iff c a, lookup-place a c v m, place-Distinct a v m)

  pub insert-Distinct : (a : K) (v : V) (m : Map K V) → Distinct m → Distinct (insert a v m)
  unfolding insert
  insert-Distinct a v m d = elim (Bool-cases (is_some (lookup a m))) [
    | inl e ↦ rw e (replace-Distinct a v m e d)
    | inr n ↦ rw n (place-Distinct a v m n d)
  ]

  pub remove-Distinct : (a : K) (m : Map K V) → Distinct m → Distinct (remove a m)
  unfolding remove
  remove-Distinct a [] d = tt
  remove-Distinct a ((c, w) ∷ m) d = ground (arith, lookup-remove a c m, remove-Distinct a m)

  lookup-retain-none :
      (p : K → V → Bool) (b : K) (m : Map K V) → lookup b m ≡ none → lookup b (retain p m) ≡ none
  unfolding lookup retain
  lookup-retain-none p b [] h = refl
  lookup-retain-none p b ((c, w) ∷ m) h = ground (arith, lookup-retain-none p b m)

  pub retain-Distinct : (p : K → V → Bool) (m : Map K V) → Distinct m → Distinct (retain p m)
  unfolding retain
  retain-Distinct p [] d = tt
  retain-Distinct p ((c, w) ∷ m) d = ground (arith, lookup-retain-none p c m, retain-Distinct p m)

  pub lookup-retain :
      (p : K → V → Bool) (b : K) (m : Map K V)
      → Distinct m
      → lookup b (retain p m) ≡ filter_some (p b) (lookup b m)
  unfolding lookup retain
  lookup-retain p b [] d = refl
  lookup-retain p b ((c, w) ∷ m) d =
      ground (arith, k.beq_iff c b, lookup-retain p b m, lookup-retain-none p b m)

  pub length-remove-le : (a : K) (m : Map K V) → length (remove a m) ≤ length m
  unfolding remove
  length-remove-le a [] = omega arith
  length-remove-le a ((c, w) ∷ m) = ground (arith, length-remove-le a m)

  pub length-remove-lt :
      (a : K) (m : Map K V) → is_some (lookup a m) ≡ true → length (remove a m) < length m
  unfolding remove lookup
  length-remove-lt a [] h = cc
  length-remove-lt a ((c, w) ∷ m) h = ground (arith, length-remove-le a m, length-remove-lt a m)

  length-replace : (a : K) (v : V) (m : Map K V) → length (replace a v m) ≡ length m
  unfolding replace
  length-replace a v [] = omega arith
  length-replace a v ((c, w) ∷ m) = ground (arith, length-replace a v m)

  length-place : (a : K) (v : V) (m : Map K V) → length (place a v m) ≡ length m + 1
  unfolding place
  length-place a v [] = omega arith
  length-place a v ((c, w) ∷ m) = ground (arith, length-place a v m)

  pub length-insert :
      (a : K) (v : V) (m : Map K V)
      → length (insert a v m) ≡ (if is_some (lookup a m) then length m else length m + 1)
  unfolding insert
  length-insert a v m = elim (Bool-cases (is_some (lookup a m))) [
    | inl e ↦ rw e (length-replace a v m)
    | inr n ↦ rw n (length-place a v m)
  ]

  -- All keys are so.
  abbrev pub AllKeys {μ} : (K → Type μ) → Map K V → Type μ
  AllKeys P [] = Unit
  AllKeys P ((b, w) ∷ m) = P b × AllKeys P m

  replace-AllKeys {μ} :
      (P : K → Type μ) (a : K) (v : V) (m : Map K V) → AllKeys P m → AllKeys P (replace a v m)
  unfolding replace
  replace-AllKeys P a v [] h = tt
  replace-AllKeys P a v ((b, w) ∷ m) h = elim (Bool-cases (k.beq b a)) [
    | inl e ↦ rw e h
    | inr e ↦ rw e (h.0, replace-AllKeys P a v m h.1)
  ]

  place-AllKeys {μ} :
      (P : K → Type μ) (a : K) (v : V) (m : Map K V) → P a → AllKeys P m → AllKeys P (place a v m)
  unfolding place
  place-AllKeys P a v [] pa h = (pa, tt)
  place-AllKeys P a v ((b, w) ∷ m) pa h = elim (Bool-cases (k.before a b)) [
    | inl e ↦ rw e (pa, h)
    | inr e ↦ rw e (h.0, place-AllKeys P a v m pa h.1)
  ]

  pub insert-AllKeys {μ} :
      (P : K → Type μ) (a : K) (v : V) (m : Map K V) → P a → AllKeys P m → AllKeys P (insert a v m)
  unfolding insert
  insert-AllKeys P a v m pa h = elim (Bool-cases (is_some (lookup a m))) [
    | inl e ↦ rw e (replace-AllKeys P a v m h)
    | inr e ↦ rw e (place-AllKeys P a v m pa h)
  ]
