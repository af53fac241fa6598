-- ===== src/Registry/Sorting.antt =====
-- `sorted` on a list, by a key: equal keys keep their order. `le` is Python's order of texts.
use datasource_kit.Prelude.{
  ℕ, suc, ◌≡◌, refl, Bool-cases, inl, inr, Bool, true, false, String, List, [], ◌∷◌, arith,
  if◌then◌else◌,
}

-- how many elements pass a test
abbrev pub count : {A : Type 0} → (A → Bool) → List A → ℕ
count test [] = 0
count test (x ∷ xs) = let rest = count test xs in if test x then suc rest else rest

module _ (le : String → String → Bool) {A : Type 0} (key : A → String) where
  abbrev pub insert_sorted : A → List A → List A
  insert_sorted x [] = x ∷ []
  insert_sorted x (y ∷ ys) =
      let rest = insert_sorted x ys in if le (key x) (key y) then x ∷ y ∷ ys else y ∷ rest

  abbrev pub sorted : List A → List A
  sorted [] = []
  sorted (x ∷ xs) = insert_sorted x (sorted xs)

  -- neighbours are in order
  abbrev pub Below : A → List A → Type 0
  Below x [] = Unit
  Below x (y ∷ ys) = le (key x) (key y) ≡ true

  abbrev pub IsSorted : List A → Type 0
  IsSorted [] = Unit
  IsSorted (x ∷ xs) = Below x xs × IsSorted xs

  insert-count :
      (test : A → Bool) (x : A) (xs : List A)
      → count test (insert_sorted x xs) ≡ count test (x ∷ xs)
  insert-count test x [] = refl
  insert-count test x (y ∷ ys) = ground (arith, insert-count test x ys)

  -- sorting keeps every element as often as it was
  pub sorted-count : (test : A → Bool) (xs : List A) → count test (sorted xs) ≡ count test xs
  sorted-count test [] = refl
  sorted-count test (x ∷ xs) = ground (arith, insert-count test x (sorted xs), sorted-count test xs)

  insert-Below :
      (x y : A) (ys : List A)
      → le (key y) (key x) ≡ true
      → Below y ys
      → Below y (insert_sorted x ys)
  insert-Below x y [] h b = h
  insert-Below x y (z ∷ zs) h b = ground arith

  insert-IsSorted :
      (x : A) (xs : List A)
      → ((s t : String) → le s t ≡ false → le t s ≡ true)
      → IsSorted xs
      → IsSorted (insert_sorted x xs)
  insert-IsSorted x [] total s = (tt, tt)
  insert-IsSorted x (y ∷ ys) total s = elim (Bool-cases (le (key x) (key y))) [
    | inl first ↦ rw first (first, s)
    | inr later ↦
        rw later
          (insert-Below x y ys (total (key x) (key y) later) s.0, insert-IsSorted x ys total s.1)
  ]

  pub sorted-IsSorted :
      (xs : List A) → ((s t : String) → le s t ≡ false → le t s ≡ true) → IsSorted (sorted xs)
  sorted-IsSorted [] total = tt
  sorted-IsSorted (x ∷ xs) total = insert-IsSorted x (sorted xs) total (sorted-IsSorted xs total)
