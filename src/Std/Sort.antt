-- ===== src/Std/Sort.antt =====
-- `slice::sort_by`, the stable sort.
use Prim.Native.Nat.{Ordering}
use mathlib.Core.List.{Perm}
use mathlib.Core.List.Perm
use orcusapi.Base.{◌≡◌, refl, List, [], ◌∷◌, Bool, true, false, if◌then◌else◌, Bool-cases, inl, inr}

abbrev pub is_gt : Ordering → Bool
is_gt Ordering.gt = true
is_gt Ordering.lt = false
is_gt Ordering.eq = false

module _ {ℓ} {A : Type ℓ} (cmp : A → A → Ordering) where
  -- before the first element that is not smaller, so that equal elements keep their order
  unfoldable pub insert : A → List A → List A
  insert x [] = x ∷ []
  insert x (y ∷ ys) = let later = insert x ys in if is_gt (cmp x y) then y ∷ later else x ∷ y ∷ ys

  unfoldable pub sort_by : List A → List A
  unfolding insert
  sort_by [] = []
  sort_by (x ∷ xs) = insert x (sort_by xs)

  -- Each element is at most the next one.
  abbrev pub IsSorted : List A → Type 0
  IsSorted [] = Unit
  IsSorted (x ∷ []) = Unit
  IsSorted (x ∷ y ∷ ys) = (is_gt (cmp x y) ≡ false) × IsSorted (y ∷ ys)

  insert-perm : (x : A) (ys : List A) → Perm (insert x ys) (x ∷ ys)
  unfolding insert
  insert-perm x [] = Perm.refl _
  insert-perm x (y ∷ ys) = elim (Bool-cases (is_gt (cmp x y))) [
    | inl after ↦ rw after (Perm.trans (Perm.cons y (insert-perm x ys)) (Perm.swap x y ys))
    | inr before ↦ rw before (Perm.refl _)
  ]

  -- Sorting only moves elements.
  pub sort_by-perm : (xs : List A) → Perm (sort_by xs) xs
  unfolding sort_by
  sort_by-perm [] = Perm.refl []
  sort_by-perm (x ∷ xs) = Perm.trans (insert-perm x (sort_by xs)) (Perm.cons x (sort_by-perm xs))

  insert_before : (x : A) (ys : List A) → IsSorted (x ∷ ys) → insert x ys ≡ x ∷ ys
  unfolding insert
  insert_before x [] h = refl
  insert_before x (y ∷ ys) h = rw h.0

  IsSorted-tail : (x : A) (ys : List A) → IsSorted (x ∷ ys) → IsSorted ys
  IsSorted-tail x [] h = tt
  IsSorted-tail x (y ∷ ys) h = h.1

  -- What is sorted stays as it is.
  pub sort_by_of_IsSorted : (xs : List A) → IsSorted xs → sort_by xs ≡ xs
  unfolding sort_by
  sort_by_of_IsSorted [] h = refl
  sort_by_of_IsSorted (x ∷ xs) h =
      rw (sort_by_of_IsSorted xs (IsSorted-tail x xs h)) (insert_before x xs h)

module _ {ℓ} {A : Type ℓ} (cmp : A → A → Ordering)
    (total : (x y : A) → is_gt (cmp x y) ≡ true → is_gt (cmp y x) ≡ false) where
  insert-IsSorted : (x : A) (ys : List A) → IsSorted cmp ys → IsSorted cmp (insert cmp x ys)
  unfolding insert
  insert-IsSorted x [] h = tt
  insert-IsSorted x (y ∷ []) h = elim (Bool-cases (is_gt (cmp x y))) [
    | inl after ↦ rw after (total x y after, tt)
    | inr before ↦ rw before (before, tt)
  ]
  insert-IsSorted x (y ∷ z ∷ zs) h = elim (Bool-cases (is_gt (cmp x y))) [
    | inl after ↦ elim (Bool-cases (is_gt (cmp x z))) [
      | inl further ↦
          let ih = insert-IsSorted x (z ∷ zs) h.1 in rw after (rw further (h.0, rw further at ih))
      | inr here ↦ rw after (rw here (total x y after, (here, h.1)))
    ]
    | inr before ↦ rw before (before, h)
  ]

  -- The result is sorted.
  pub sort_by-IsSorted : (xs : List A) → IsSorted cmp (sort_by cmp xs)
  unfolding sort_by
  sort_by-IsSorted [] = tt
  sort_by-IsSorted (x ∷ xs) = insert-IsSorted x (sort_by cmp xs) (sort_by-IsSorted xs)
