-- ===== src/Store/Table.antt =====
-- What the store uses of SQL, on a table as a list of rows.
use kokoro_scheduler.Base.{
  suc, ◌≤◌, ◌≡◌, refl, ap, subst, inl, inr, Bool, true, false, ◌||◌, Option, none, some, List, [],
  ◌∷◌, arith, if◌then◌else◌, count_if, length, Bool-cases, All,
}

module _ {ℓ} {A : Type ℓ} where
  -- `UPDATE … SET f WHERE p`.
  unfoldable pub update_where : (A → Bool) → (A → A) → List A → List A
  update_where p f [] = []
  update_where p f (x ∷ xs) = (if p x then f x else x) ∷ update_where p f xs

  -- `SELECT … WHERE p`.
  unfoldable pub select_where : (A → Bool) → List A → List A
  select_where p [] = []
  select_where p (x ∷ xs) = if p x then x ∷ select_where p xs else select_where p xs

  -- `DELETE … WHERE p`.
  unfoldable pub delete_where : (A → Bool) → List A → List A
  delete_where p [] = []
  delete_where p (x ∷ xs) = if p x then delete_where p xs else x ∷ delete_where p xs

  -- The first row of a result, as `QueryRow` reads it; `none` is `pgx.ErrNoRows`.
  unfoldable pub first_row : List A → Option A
  first_row [] = none
  first_row (x ∷ xs) = some x

  -- `EXISTS (SELECT … WHERE p)`.
  unfoldable pub exists_where : (A → Bool) → List A → Bool
  exists_where p [] = false
  exists_where p (x ∷ xs) = p x || exists_where p xs

  unfoldable pub insert_by : (A → A → Bool) → A → List A → List A
  insert_by before x [] = x ∷ []
  insert_by before x (y ∷ ys) = if before y x then y ∷ insert_by before x ys else x ∷ y ∷ ys

  -- `ORDER BY`, for a strict order of rows.
  unfoldable pub order_by : (A → A → Bool) → List A → List A
  unfolding insert_by
  order_by before [] = []
  order_by before (x ∷ xs) = insert_by before x (order_by before xs)

  pub length-update_where :
      (p : A → Bool) (f : A → A) (xs : List A) → length (update_where p f xs) ≡ length xs
  unfolding update_where
  length-update_where p f [] = refl
  length-update_where p f (x ∷ xs) = ap suc (length-update_where p f xs)

  -- An update keeps what its assignment keeps on the rows that it matches.
  pub update_where-All {κ} :
      (P : A → Type κ) (p : A → Bool) (f : A → A)
      → ((x : A) → p x ≡ true → P x → P (f x))
      → (xs : List A) → All P xs
      → All P (update_where p f xs)
  unfolding update_where
  update_where-All P p f keep [] h = tt
  update_where-All P p f keep (x ∷ xs) h = elim (Bool-cases (p x)) [
    | inl hit ↦ (rw hit (keep x hit h.0), update_where-All P p f keep xs h.1)
    | inr miss ↦ (rw miss h.0, update_where-All P p f keep xs h.1)
  ]

  -- An update whose assignment gives a property that the other rows have already.
  pub update_where-All_cases {κ} :
      (P : A → Type κ) (p : A → Bool) (f : A → A)
      → ((x : A) → p x ≡ true → P (f x))
      → (xs : List A) → All (λ x. p x ≡ false → P x) xs
      → All P (update_where p f xs)
  unfolding update_where
  update_where-All_cases P p f set [] h = tt
  update_where-All_cases P p f set (x ∷ xs) h = elim (Bool-cases (p x)) [
    | inl hit ↦ (rw hit (set x hit), update_where-All_cases P p f set xs h.1)
    | inr miss ↦ (rw miss (h.0 miss), update_where-All_cases P p f set xs h.1)
  ]

  pub exists_where-none :
      (p : A → Bool) (xs : List A) → All (λ x. p x ≡ false) xs → exists_where p xs ≡ false
  unfolding exists_where
  exists_where-none p [] h = refl
  exists_where-none p (x ∷ xs) h = rw (h.0, exists_where-none p xs h.1)

  pub delete_where-All {κ} :
      (P : A → Type κ) (p : A → Bool) (xs : List A) → All P xs → All P (delete_where p xs)
  unfolding delete_where
  delete_where-All P p [] h = tt
  delete_where-All P p (x ∷ xs) h = elim (Bool-cases (p x)) [
    | inl hit ↦ rw hit (delete_where-All P p xs h.1)
    | inr miss ↦ rw miss (h.0, delete_where-All P p xs h.1)
  ]

  -- An update that matches nothing changes nothing.
  pub update_where-none :
      (p : A → Bool) (f : A → A) (xs : List A) → count_if p xs ≡ 0 → update_where p f xs ≡ xs
  unfolding update_where
  update_where-none p f [] h = refl
  update_where-none p f (x ∷ xs) h = ground (arith, update_where-none p f xs)

  -- A selected row matches, and has what all rows have.
  pub select_where-All {κ} :
      (P : A → Type κ) (p : A → Bool) (xs : List A)
      → All P xs
      → All (λ x. P x × (p x ≡ true)) (select_where p xs)
  unfolding select_where
  select_where-All P p [] h = tt
  select_where-All P p (x ∷ xs) h = elim (Bool-cases (p x)) [
    | inl hit ↦ rw hit ((h.0, hit), select_where-All P p xs h.1)
    | inr miss ↦ rw miss (select_where-All P p xs h.1)
  ]

  -- A count does not change where the updated rows count as before.
  pub count_if-update_where :
      (q p : A → Bool) (f : A → A)
      → ((x : A) → p x ≡ true → q (f x) ≡ q x)
      → (xs : List A) → count_if q (update_where p f xs) ≡ count_if q xs
  unfolding update_where
  count_if-update_where q p f keep [] = refl
  count_if-update_where q p f keep (x ∷ xs) =
      let rest = count_if-update_where q p f keep xs in
      elim (Bool-cases (p x)) [ inl hit ↦ rw (hit, keep x hit, rest) | inr miss ↦ rw (miss, rest) ]

  -- It does not grow where no updated row comes to count.
  pub count_if-update_where-le :
      (q p : A → Bool) (f : A → A)
      → ((x : A) → p x ≡ true → q x ≡ false → q (f x) ≡ false)
      → (xs : List A) → count_if q (update_where p f xs) ≤ count_if q xs
  unfolding update_where
  count_if-update_where-le q p f keep [] = omega arith
  count_if-update_where-le q p f keep (x ∷ xs) =
      ground (arith, count_if-update_where-le q p f keep xs, keep x)

  pub exists_where-count :
      (p : A → Bool) (xs : List A) → exists_where p xs ≡ false → count_if p xs ≡ 0
  unfolding exists_where
  exists_where-count p [] h = refl
  exists_where-count p (x ∷ xs) h = ground (arith, exists_where-count p xs)

  -- The first selected row matches, and has what all rows have.
  pub first_row-All {κ} :
      (P : A → Type κ) (p : A → Bool) (xs : List A) {x : A}
      → All P xs
      → first_row (select_where p xs) ≡ some x
      → P x × (p x ≡ true)
  unfolding first_row select_where
  first_row-All P p [] v h = cc
  first_row-All P p (y ∷ xs) {x} v h = elim (Bool-cases (p y)) [
    | inl hit ↦ let e : y ≡ x = cc (rw hit at h) in subst (λ z. P z × (p z ≡ true)) e (v.0, hit)
    | inr miss ↦ first_row-All P p xs v.1 (rw miss at h)
  ]

  pub first_row-select :
      (p : A → Bool) (xs : List A) {x : A} → first_row (select_where p xs) ≡ some x → p x ≡ true
  unfolding first_row select_where
  first_row-select p [] h = cc
  first_row-select p (y ∷ xs) {x} h = elim (Bool-cases (p y)) [
    | inl hit ↦ let e : y ≡ x = cc (rw hit at h) in subst (λ z. p z ≡ true) e hit
    | inr miss ↦ first_row-select p xs (rw miss at h)
  ]

pub data Empty {ℓ} : Type ℓ where

-- Two tables, row by row.
abbrev pub All₂ {ℓ κ} : {A : Type ℓ} → (A → A → Type κ) → List A → List A → Type κ
All₂ R [] [] = Unit
All₂ R [] (y ∷ ys) = Empty
All₂ R (x ∷ xs) [] = Empty
All₂ R (x ∷ xs) (y ∷ ys) = R x y × All₂ R xs ys

module _ {ℓ κ} {A : Type ℓ} (R : A → A → Type κ) where
  -- An update relates each row to itself or to its assignment.
  pub update_where-All₂ :
      (p : A → Bool) (f : A → A)
      → ((x : A) → R x x)
      → (xs : List A) → All (λ x. p x ≡ true → R x (f x)) xs
      → All₂ R xs (update_where p f xs)
  unfolding update_where
  update_where-All₂ p f same [] h = tt
  update_where-All₂ p f same (x ∷ xs) h = elim (Bool-cases (p x)) [
    | inl yes_ ↦ (rw yes_ (h.0 yes_), update_where-All₂ p f same xs h.1)
    | inr no_ ↦ (rw no_ (same x), update_where-All₂ p f same xs h.1)
  ]

-- What holds of every value holds of every entry.
pub All-intro {ℓ κ} : {A : Type ℓ} {P : A → Type κ} → ((x : A) → P x) → (xs : List A) → All P xs
All-intro h [] = tt
All-intro h (x ∷ xs) = (h x, All-intro h xs)

-- An update keeps what its assignment keeps on the matching rows of the table.
pub update_where-All_rows {ℓ κ} :
    {A : Type ℓ} (P : A → Type κ) (p : A → Bool) (f : A → A) (xs : List A)
    → All (λ x. p x ≡ true → P x → P (f x)) xs
    → All P xs
    → All P (update_where p f xs)
unfolding update_where
update_where-All_rows P p f [] h v = tt
update_where-All_rows P p f (x ∷ xs) h v = elim (Bool-cases (p x)) [
  | inl hit ↦ (rw hit (h.0 hit v.0), update_where-All_rows P p f xs h.1 v.1)
  | inr miss ↦ (rw miss v.0, update_where-All_rows P p f xs h.1 v.1)
]
