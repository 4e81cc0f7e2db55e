-- ===== src/Profiles/OneActive.antt =====
-- The revisions of src/profiles.rs: at most one is active, over any calls.
use egressy.Base.{
  ℕ, suc, ◌+◌, ◌≤◌, ◌≡◌, refl, ◌⊎◌, inl, inr, String, false, List, [], ◌∷◌, ◌==◌, eq_iff,
  if◌then◌else◌, arith, Bool-cases,
}
use egressy.Profiles.{
  Row, Services, Failure, is_valid_id, count_id, deactivate_all, activate_id, delete_id,
  delete_inactive, stage, staged_row, insert_row, activate,
}

module _ {Json Nonce Cipher : Type 0} where
  abbrev pub actives : List (Row Json Nonce Cipher) → ℕ
  actives [] = 0
  actives (r ∷ rs) = let rest = actives rs in if r.active then suc rest else rest

  -- No id stands twice, and at most one revision is active.
  pub record IsStore (rows : List (Row Json Nonce Cipher)) : Type 0 where
    pub keyed : (id : String) → count_id id rows ≤ 1
    pub one_active : actives rows ≤ 1

  actives-deactivate_all : (rows : List (Row Json Nonce Cipher)) → actives (deactivate_all rows) ≡ 0
  unfolding deactivate_all
  actives-deactivate_all [] = refl
  actives-deactivate_all (r ∷ rs) = actives-deactivate_all rs

  count_id-deactivate_all :
      (id : String) (rows : List (Row Json Nonce Cipher))
      → count_id id (deactivate_all rows) ≡ count_id id rows
  unfolding deactivate_all count_id
  count_id-deactivate_all id [] = refl
  count_id-deactivate_all id (r ∷ rs) = ground (arith, count_id-deactivate_all id rs)

  count_id-activate_id :
      (j id : String) (now : ℕ) (rows : List (Row Json Nonce Cipher))
      → count_id j (activate_id id now rows) ≡ count_id j rows
  unfolding activate_id count_id
  count_id-activate_id j id now [] = refl
  count_id-activate_id j id now (r ∷ rs) = ground (arith, count_id-activate_id j id now rs)

  -- An update of an id adds no more active rows than there are rows of it.
  actives-activate_id-le :
      (id : String) (now : ℕ) (rows : List (Row Json Nonce Cipher))
      → actives (activate_id id now rows) ≤ actives rows + count_id id rows
  unfolding activate_id count_id
  actives-activate_id-le id now [] = omega arith
  actives-activate_id-le id now (r ∷ rs) = ground (arith, actives-activate_id-le id now rs)

  delete_id-le :
      (j id : String) (rows : List (Row Json Nonce Cipher))
      → (count_id j (delete_id id rows) ≤ count_id j rows)
        × (actives (delete_id id rows) ≡ actives rows)
  unfolding delete_id count_id
  delete_id-le j id [] = (omega arith, refl)
  delete_id-le j id (r ∷ rs) = ground (arith, delete_id-le j id rs)

  delete_inactive-IsStore :
      (id : String) (rows : List (Row Json Nonce Cipher))
      → IsStore rows
      → IsStore (delete_inactive id rows).0
  unfolding delete_inactive
  delete_inactive-IsStore id rows s = elim (Bool-cases (is_valid_id id)) [
    | inr bad ↦ rw bad s
    | inl good ↦ rw good (record {
      keyed = λ j. omega (arith, delete_id-le j id rows, s.keyed j);
      one_active = omega (arith, delete_id-le id id rows, s.one_active);
    })
  ]

module _ {Source Profile Meta Json Nonce Cipher : Type 0}
    (services : Services Source Profile Meta Json Nonce Cipher) where
  staged_row-inactive :
      (source : Source) (nonce : Nonce) (id : String) (now : ℕ) (r : Row Json Nonce Cipher)
      → staged_row services source nonce id now ≡ inr r
      → r.active ≡ false
  unfolding staged_row
  staged_row-inactive source nonce id now r e = ground (arith, e)

  insert_row-IsStore :
      (o : Failure ⊎ Row Json Nonce Cipher) (rows : List (Row Json Nonce Cipher))
      → ((r : Row Json Nonce Cipher) → o ≡ inr r → r.active ≡ false)
      → IsStore rows
      → IsStore (insert_row services o rows).0
  unfolding insert_row count_id
  insert_row-IsStore (inl why) rows fresh s = s
  insert_row-IsStore (inr r) rows fresh s = elim (Bool-cases (count_id r.id rows == 0)) [
    | inr taken ↦ rw taken s
    | inl free ↦ rw free (record {
      keyed = λ j. ground (arith, s.keyed j, eq_iff r.id j, free);
      one_active = ground (arith, s.one_active, fresh r refl);
    })
  ]

  activate-IsStore :
      (id : String) (now : ℕ) (rows : List (Row Json Nonce Cipher))
      → IsStore rows
      → IsStore (activate services id now rows).0
  unfolding activate
  activate-IsStore id now rows s = elim (Bool-cases (is_valid_id id)) [
    | inr bad ↦ rw bad s
    | inl good ↦ rw good (elim (Bool-cases (count_id id rows == 1)) [
      | inr missing ↦ rw missing s
      | inl found ↦ rw found (record {
        keyed = λ j. omega (
          arith,
          count_id-activate_id j id now (deactivate_all rows),
          count_id-deactivate_all j rows,
          s.keyed j,
        );
        one_active = omega (
          arith,
          actives-activate_id-le id now (deactivate_all rows),
          actives-deactivate_all rows,
          count_id-deactivate_all id rows,
          s.keyed id,
        );
      })
    ])
  ]

-- The calls that change the table.
pub data Call (Source Nonce : Type 0) : Type 0 where
  stages : Source → Nonce → String → ℕ → Call Source Nonce
  activates : String → ℕ → Call Source Nonce
  deletes : String → Call Source Nonce

module _ {Source Profile Meta Json Nonce Cipher : Type 0}
    (services : Services Source Profile Meta Json Nonce Cipher) where
  pub calls : List (Call Source Nonce) → List (Row Json Nonce Cipher) → List (Row Json Nonce Cipher)
  calls [] rows = rows
  calls (stages source nonce id now ∷ cs) rows =
      calls cs (stage services source nonce id now rows).0
  calls (activates id now ∷ cs) rows = calls cs (activate services id now rows).0
  calls (deletes id ∷ cs) rows = calls cs (delete_inactive id rows).0

  -- Over any calls of stage, activate and delete_inactive, failed ones included, no id stands twice
  -- and at most one revision is active.
  pub calls-IsStore :
      (cs : List (Call Source Nonce)) (rows : List (Row Json Nonce Cipher))
      → IsStore rows
      → IsStore (calls cs rows)
  unfolding calls stage
  calls-IsStore [] rows s = s
  calls-IsStore (stages source nonce id now ∷ cs) rows s = calls-IsStore cs _ (
      insert_row-IsStore services (staged_row services source nonce id now) rows
        (staged_row-inactive services source nonce id now) s)
  calls-IsStore (activates id now ∷ cs) rows s =
      calls-IsStore cs _ (activate-IsStore services id now rows s)
  calls-IsStore (deletes id ∷ cs) rows s = calls-IsStore cs _ (delete_inactive-IsStore id rows s)
