-- ===== src/Prelude/Sorting.antt =====
-- Python's `sorted`: a stable sort by a test on two elements, and what it returns.
use mathlib.Core.Path.{◌≡◌, refl, ap, ◌∙◌}
use mathlib.Core.Bool.{Bool, true, false, ◌||◌}
use mathlib.Core.Logic.{inl, inr}
use mathlib.Core.List.{List, [], ◌∷◌, Perm}
use mathlib.Core.List.Perm
use graph_ingest_test.Prelude.Tests.{if◌then◌else◌, Bool-cases}
use graph_ingest_test.Prelude.Lists.{All, length, any_of}
use Prim.Native.Nat.{suc}
use native.Mathlib.Omega.{arith}

module _ {ℓ} {A : Type ℓ} (le : A → A → Bool) where
  unfoldable pub insert : A → List A → List A
  insert x [] = x ∷ []
  insert x (y ∷ ys) = if le x y then x ∷ y ∷ ys else y ∷ insert x ys

  unfoldable pub sort : List A → List A
  unfolding insert
  sort [] = []
  sort (x ∷ xs) = insert x (sort xs)

  -- Each element is at most every later one.
  abbrev pub IsOrdered : List A → Type ℓ
  IsOrdered [] = Unit
  IsOrdered (x ∷ xs) = All (λ y. le x y ≡ true) xs × IsOrdered xs

  perm-insert : (x : A) (ys : List A) → Perm (insert x ys) (x ∷ ys)
  unfolding insert
  perm-insert x [] = Perm.refl _
  perm-insert x (y ∷ ys) = elim (Bool-cases (le x y)) [
    | inl e ↦ rw e (Perm.refl _)
    | inr e ↦ rw e (Perm.trans (Perm.cons y (perm-insert x ys)) (Perm.swap _ _ _))
  ]

  pub perm-sort : (xs : List A) → Perm (sort xs) xs
  unfolding sort
  perm-sort [] = Perm.refl _
  perm-sort (x ∷ xs) = Perm.trans (perm-insert x (sort xs)) (Perm.cons x (perm-sort xs))

  pub All-insert {κ} : (P : A → Type κ) (x : A) (ys : List A) → P x → All P ys → All P (insert x ys)
  unfolding insert
  All-insert P x [] h hs = (h, tt)
  All-insert P x (y ∷ ys) h hs = elim (Bool-cases (le x y)) [
    | inl e ↦ rw e (h, hs)
    | inr e ↦ rw e (hs.0, All-insert P x ys h hs.1)
  ]

  pub All-sort {κ} : (P : A → Type κ) (xs : List A) → All P xs → All P (sort xs)
  unfolding sort
  All-sort P [] h = tt
  All-sort P (x ∷ xs) h = All-insert P x (sort xs) h.0 (All-sort P xs h.1)

  All-insert-back {κ} :
      (P : A → Type κ) (x : A) (ys : List A) → All P (insert x ys) → P x × All P ys
  unfolding insert
  All-insert-back P x [] h = h
  All-insert-back P x (y ∷ ys) h = elim (Bool-cases (le x y)) [
    | inl e ↦ rw e at h
    | inr e ↦
        let hs = rw e at h in let (here, rest) = All-insert-back P x ys hs.1 in (here, (hs.0, rest))
  ]

  pub All-sort-back {κ} : (P : A → Type κ) (xs : List A) → All P (sort xs) → All P xs
  unfolding sort
  All-sort-back P [] h = tt
  All-sort-back P (x ∷ xs) h =
      let (here, rest) = All-insert-back P x (sort xs) h in (here, All-sort-back P xs rest)

  any_of-insert :
      (p : A → Bool) (x : A) (ys : List A) → any_of p (insert x ys) ≡ (p x || any_of p ys)
  unfolding insert
  any_of-insert p x [] = refl
  any_of-insert p x (y ∷ ys) = ground (arith, any_of-insert p x ys)

  pub any_of-sort : (p : A → Bool) (xs : List A) → any_of p (sort xs) ≡ any_of p xs
  unfolding sort
  any_of-sort p [] = refl
  any_of-sort p (x ∷ xs) = any_of-insert p x (sort xs) ∙ ap (λ b. p x || b) (any_of-sort p xs)

  length-insert : (x : A) (ys : List A) → length (insert x ys) ≡ suc (length ys)
  unfolding insert
  length-insert x [] = refl
  length-insert x (y ∷ ys) = ground (arith, length-insert x ys)

  pub length-sort : (xs : List A) → length (sort xs) ≡ length xs
  unfolding sort
  length-sort [] = refl
  length-sort (x ∷ xs) = omega (arith, length-insert x (sort xs), length-sort xs)

  module _ (total : (x y : A) → le x y ≡ false → le y x ≡ true)
      (trans : (x y z : A) → le x y ≡ true → le y z ≡ true → le x z ≡ true) where
    All-after :
        (x y : A) (ys : List A)
        → le x y ≡ true
        → All (λ z. le y z ≡ true) ys
        → All (λ z. le x z ≡ true) ys
    All-after x y [] h hs = tt
    All-after x y (z ∷ zs) h hs = (trans x y z h hs.0, All-after x y zs h hs.1)

    insert-IsOrdered : (x : A) (ys : List A) → IsOrdered ys → IsOrdered (insert x ys)
    unfolding insert
    insert-IsOrdered x [] h = (tt, tt)
    insert-IsOrdered x (y ∷ ys) h = elim (Bool-cases (le x y)) [
      | inl e ↦ rw e ((e, All-after x y ys e h.0), h)
      | inr e ↦ rw e (All-insert _ x ys (total x y e) h.0, insert-IsOrdered x ys h.1)
    ]

    pub sort-IsOrdered : (xs : List A) → IsOrdered (sort xs)
    unfolding sort
    sort-IsOrdered [] = tt
    sort-IsOrdered (x ∷ xs) = insert-IsOrdered x (sort xs) (sort-IsOrdered xs)
