-- ===== src/Store/Rows.antt =====
-- The statements on a table, whatever its rows are.
use sharm.Common.{
  ◌≡◌, refl, sym, ap, subst, Bool, true, false, not, map, if◌then◌else◌, none, some, List, [], ◌∷◌,
  ◌++◌, All, any, arith, Bool-cases, inl, inr,
}
use sharm.Store.{select_one, select, update_where, delete_where}

-- The rows of the first list that fail a test, in their order.
pub data Without {A : Type 0} (test : A → Bool) : List A → List A → Type 0 where
  nothing : Without test [] []
  dropped : {r : A} {rs ss : List A} → test r ≡ true → Without test rs ss → Without test (r ∷ rs) ss
  kept :
      {r : A} {rs ss : List A}
      → test r ≡ false
      → Without test rs ss
      → Without test (r ∷ rs) (r ∷ ss)

-- The first row that passes a test.
pub data IsFirst {A : Type 0} (test : A → Bool) (r : A) : List A → Type 0 where
  here : {rs : List A} → test r ≡ true → IsFirst test r (r ∷ rs)
  later : {s : A} {rs : List A} → test s ≡ false → IsFirst test r rs → IsFirst test r (s ∷ rs)

module _ {A : Type 0} where
  pub delete_where-Without :
      (test : A → Bool) (rs : List A) → Without test rs (delete_where test rs)
  unfolding delete_where
  delete_where-Without test [] = nothing
  delete_where-Without test (r ∷ rs) =
      let rest = delete_where-Without test rs in
      elim (Bool-cases (test r)) [
        | inl hit ↦ rw hit (dropped hit rest)
        | inr miss ↦ rw miss (kept miss rest)
      ]

  pub select-Without :
      (test : A → Bool) (rs : List A) → Without (λ r. not (test r)) rs (select test rs)
  unfolding select
  select-Without test [] = nothing
  select-Without test (r ∷ rs) =
      let rest = select-Without test rs in
      elim (Bool-cases (test r)) [
        | inl hit ↦ rw hit (kept (ground arith) rest)
        | inr miss ↦ rw miss (dropped (ground arith) rest)
      ]

  pub Without-select :
      (test : A → Bool) {rs ss : List A} → Without (λ r. not (test r)) rs ss → ss ≡ select test rs
  unfolding select
  Without-select test nothing = refl
  Without-select test {rs = r ∷ rs} (dropped fails rest) =
      let miss : test r ≡ false = ground arith in rw miss (Without-select test rest)
  Without-select test {rs = r ∷ rs} (kept passes rest) =
      let hit : test r ≡ true = ground arith in
      rw hit (ap (λ ss. r ∷ ss) (Without-select test rest))

  pub select_one-IsFirst :
      (test : A → Bool) (r : A) (rs : List A) → select_one test rs ≡ some r → IsFirst test r rs
  unfolding select_one
  select_one-IsFirst test r [] h = cc
  select_one-IsFirst test r (s ∷ rs) h = elim (Bool-cases (test s)) [
    | inl hit ↦
        let same : s ≡ r = ground arith in
        subst (λ t. IsFirst test r (t ∷ rs)) (sym same) (here (rw (← same) hit))
    | inr miss ↦ later miss (select_one-IsFirst test r rs (ground arith))
  ]

  pub IsFirst-select_one :
      (test : A → Bool) (r : A) (rs : List A) → IsFirst test r rs → select_one test rs ≡ some r
  unfolding select_one
  IsFirst-select_one test r [] h = elim h [ ]
  IsFirst-select_one test r (s ∷ rs) (here hit) = rw hit refl
  IsFirst-select_one test r (s ∷ rs) (later miss rest) = rw miss (IsFirst-select_one test r rs rest)

  pub update_where-map :
      (test : A → Bool) (set : A → A) (rs : List A)
      → update_where test set rs ≡ map (λ r. if test r then set r else r) rs
  unfolding update_where
  update_where-map test set [] = refl
  update_where-map test set (r ∷ rs) = rw (update_where-map test set rs) refl

  pub delete_where_again :
      (test : A → Bool) (rs : List A)
      → delete_where test (delete_where test rs) ≡ delete_where test rs
  unfolding delete_where
  delete_where_again test [] = refl
  delete_where_again test (r ∷ rs) = ground (arith, delete_where_again test rs)

-- Statements about each row that UPDATE and DELETE keep.
module _ {A : Type 0} (P : A → Type 0) where
  pub All-update_where :
      (test : A → Bool) (set : A → A)
      → ((j : A) → P j → P (set j))
      → (js : List A) → All P js
      → All P (update_where test set js)
  unfolding update_where
  All-update_where test set keep [] a = tt
  All-update_where test set keep (j ∷ js) a = (
    elim (Bool-cases (test j)) [ inl hit ↦ rw hit (keep j a.0) | inr miss ↦ rw miss a.0 ],
    All-update_where test set keep js a.1,
  )

  pub All-delete_where : (test : A → Bool) (js : List A) → All P js → All P (delete_where test js)
  unfolding delete_where
  All-delete_where test [] a = tt
  All-delete_where test (j ∷ js) a = elim (Bool-cases (test j)) [
    | inl hit ↦ rw hit (All-delete_where test js a.1)
    | inr miss ↦ rw miss (a.0, All-delete_where test js a.1)
  ]

  -- An UPDATE of the rows that a test selects makes the statement true of them.
  pub All-update_where_made :
      (test : A → Bool) (set : A → A)
      → ((j : A) → test j ≡ true → P (set j))
      → ((j : A) → test j ≡ false → P j)
      → (js : List A) → All P (update_where test set js)
  unfolding update_where
  All-update_where_made test set make other [] = tt
  All-update_where_made test set make other (j ∷ js) = (
    elim (Bool-cases (test j)) [
      | inl hit ↦ rw hit (make j hit)
      | inr miss ↦ rw miss (other j miss)
    ],
    All-update_where_made test set make other js,
  )

-- What a DELETE leaves fails its test.
module _ {A : Type 0} (P Q : A → Type 0) (test : A → Bool) where
  pub All-delete_where_left :
      ((j : A) → P j → test j ≡ false → Q j)
      → (js : List A) → All P js
      → All Q (delete_where test js)
  unfolding delete_where
  All-delete_where_left left [] a = tt
  All-delete_where_left left (j ∷ js) a = elim (Bool-cases (test j)) [
    | inl hit ↦ rw hit (All-delete_where_left left js a.1)
    | inr miss ↦ rw miss (left j a.0 miss, All-delete_where_left left js a.1)
  ]

module _ {A : Type 0} (test : A → Bool) where
  pub any-delete_where : (js : List A) → any test (delete_where test js) ≡ false
  unfolding delete_where
  any-delete_where [] = refl
  any-delete_where (j ∷ js) = ground (arith, any-delete_where js)

  pub select_one-delete_where : (js : List A) → select_one test (delete_where test js) ≡ none
  unfolding delete_where select_one
  select_one-delete_where [] = refl
  select_one-delete_where (j ∷ js) = ground (arith, select_one-delete_where js)

  pub any-append_left : (js ks : List A) → any test js ≡ true → any test (js ++ ks) ≡ true
  any-append_left [] ks h = cc
  any-append_left (j ∷ js) ks h = ground (arith, any-append_left js ks)

  -- An UPDATE that does not touch what a test reads.
  pub any-update_where :
      (at : A → Bool) (set : A → A)
      → ((j : A) → test (set j) ≡ test j)
      → (js : List A) → any test (update_where at set js) ≡ any test js
  unfolding update_where
  any-update_where at set same [] = refl
  any-update_where at set same (j ∷ js) = ground (arith, same j, any-update_where at set same js)

  -- A DELETE of other rows.
  pub any-delete_where_other :
      (at : A → Bool)
      → ((j : A) → test j ≡ true → at j ≡ false)
      → (js : List A) → any test js ≡ true
      → any test (delete_where at js) ≡ true
  unfolding delete_where
  any-delete_where_other at apart [] h = h
  any-delete_where_other at apart (j ∷ js) h = elim (Bool-cases (test j)) [
    | inl hit ↦ ground (arith, apart j hit)
    | inr miss ↦ ground (arith, any-delete_where_other at apart js)
  ]
