-- ===== src/Prelude/AnyOf.antt =====
-- `any_of` and members of a list.
use mathlib.Core.Path.{◌≡◌, refl, ap}
use mathlib.Core.Bool.{Bool, true, false, ◌||◌}
use mathlib.Core.Logic.{⊎_elim, inl, inr}
use mathlib.Core.List.{List, [], ◌∷◌, ◌++◌, map, reverse, reverse-cons, Memᴰ}
use mathlib.Core.List.Memᴰ
use native.Mathlib.Omega.{arith}
use graph_ingest_test.Prelude.Lists.{any_of, length, length-append}
use graph_ingest_test.Prelude.Tests.{Bool-cases}

module _ {ℓ} {A : Type ℓ} (p : A → Bool) where
  pub any_of-Memᴰ : (xs : List A) → any_of p xs ≡ true → (x : A) × Memᴰ x xs × (p x ≡ true)
  any_of-Memᴰ [] h = cc
  any_of-Memᴰ (x ∷ xs) h = elim (Bool-cases (p x)) [
    | inl e ↦ (x, Memᴰ.head refl, e)
    | inr e ↦ let (y, m, q) = any_of-Memᴰ xs (rw (e, ◌||◌) at h) in (y, Memᴰ.tail m, q)
  ]

  pub Memᴰ-any_of : (xs : List A) (x : A) → Memᴰ x xs → p x ≡ true → any_of p xs ≡ true
  Memᴰ-any_of [] x m h = absurd (Memᴰ.not-nil m)
  Memᴰ-any_of (y ∷ ys) x m h =
      ⊎_elim (λ e. rw (← e, h, ◌||◌) refl) (λ t. or_true (p y) (Memᴰ-any_of ys x t h))
        (Memᴰ.cases_cons m)
    where
      or_true : (a : Bool) {b : Bool} → b ≡ true → a || b ≡ true
      or_true true e = refl
      or_true false e = e

module _ {ℓ κ} {A : Type ℓ} {B : Type κ} (f : A → B) where
  pub Memᴰ-of_map : (xs : List A) (y : B) → Memᴰ y (map f xs) → (x : A) × Memᴰ x xs × (y ≡ f x)
  Memᴰ-of_map [] y m = absurd (Memᴰ.not-nil m)
  Memᴰ-of_map (x ∷ xs) y m =
      ⊎_elim (λ e. (x, Memᴰ.head refl, e))
        (λ t. let (z, at, e) = Memᴰ-of_map xs y t in (z, Memᴰ.tail at, e)) (Memᴰ.cases_cons m)

  pub Memᴰ-map : (xs : List A) (x : A) → Memᴰ x xs → Memᴰ (f x) (map f xs)
  Memᴰ-map [] x m = absurd (Memᴰ.not-nil m)
  Memᴰ-map (y ∷ ys) x m =
      ⊎_elim (λ e. Memᴰ.head (ap f e)) (λ t. Memᴰ.tail (Memᴰ-map ys x t)) (Memᴰ.cases_cons m)

module _ {ℓ} {A : Type ℓ} where
  pub Memᴰ-reverse : (xs : List A) (x : A) → Memᴰ x xs → Memᴰ x (reverse xs)
  Memᴰ-reverse [] x m = absurd (Memᴰ.not-nil m)
  Memᴰ-reverse (y ∷ ys) x m = rw reverse-cons (
      ⊎_elim (λ e. Memᴰ.append_right (reverse ys) (Memᴰ.head e))
        (λ t. Memᴰ.append_left (y ∷ []) (Memᴰ-reverse ys x t)) (Memᴰ.cases_cons m))

  pub Memᴰ-of_reverse : (xs : List A) (x : A) → Memᴰ x (reverse xs) → Memᴰ x xs
  Memᴰ-of_reverse [] x m = absurd (Memᴰ.not-nil m)
  Memᴰ-of_reverse (y ∷ ys) x m =
      ⊎_elim (λ t. Memᴰ.tail (Memᴰ-of_reverse ys x t)) (λ e. Memᴰ.head (Memᴰ.eq_of_singleton e))
        (Memᴰ.append_cases (reverse ys) (rw reverse-cons at m))

  pub length-reverse : (xs : List A) → length (reverse xs) ≡ length xs
  length-reverse [] = refl
  length-reverse (x ∷ xs) =
      rw reverse-cons (omega (arith, length-append (reverse xs) (x ∷ []), length-reverse xs))

  pub any_of-append :
      (p : A → Bool) (xs : List A) (x : A) → any_of p (xs ++ x ∷ []) ≡ any_of p xs || p x
  any_of-append p [] x = or_false (p x)
    where
      or_false : (b : Bool) → b || false ≡ b
      or_false true = refl
      or_false false = refl
  any_of-append p (y ∷ xs) x = rw (any_of-append p xs x) (regroup (p y))
    where
      regroup : (b : Bool) → b || (any_of p xs || p x) ≡ (b || any_of p xs) || p x
      regroup true = refl
      regroup false = refl
