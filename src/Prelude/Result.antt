-- ===== src/Prelude/Result.antt =====
-- Python's exceptions as values.
use mathlib.Core.Path.{◌≡◌, refl}
use mathlib.Core.Logic.{◌⊎◌, inl, inr}
use mathlib.Core.Bool.{Bool, true, false}
use graph_ingest_test.Prelude.Tests.{if◌then◌else◌}

-- `out_of_fuel` is no exception: a loop of the model had too little fuel.
pub data Error : Type 0 where
  class_file_error struct_error : Error
  out_of_fuel : Error

pub data Result {ℓ} (A : Type ℓ) : Type ℓ where
  ok : A → Result A
  err : Error → Result A

infixl 5 ◌>>=◌ ◌>>◌
abbrev pub ◌>>=◌ {ℓ κ} : {A : Type ℓ} {B : Type κ} → Result A → (A → Result B) → Result B
ok a >>= f = f a
err e >>= f = err e

abbrev pub ◌>>◌ {ℓ κ} : {A : Type ℓ} {B : Type κ} → Result A → Result B → Result B
m >> k = m >>= λ _. k

pub Result-cases {ℓ} :
    {A : Type ℓ} (r : Result A) → ((a : A) × (r ≡ ok a)) ⊎ ((e : Error) × (r ≡ err e))
Result-cases (ok a) = inl (a, refl)
Result-cases (err e) = inr (e, refl)

-- A computation that ends, with a result or an exception, before its fuel does.
abbrev pub halts {ℓ} : {A : Type ℓ} → Result A → Bool
halts (ok a) = true
halts (err class_file_error) = true
halts (err struct_error) = true
halts (err out_of_fuel) = false

pub halts-bind {ℓ κ} :
    {A : Type ℓ} {B : Type κ} (r : Result A) (f : A → Result B)
    → halts r ≡ true
    → ((a : A) → halts (f a) ≡ true)
    → halts (r >>= f) ≡ true
halts-bind (ok a) f h k = k a
halts-bind (err class_file_error) f h k = refl
halts-bind (err struct_error) f h k = refl
halts-bind (err out_of_fuel) f h k = cc

pub halts-branch {ℓ} :
    {A : Type ℓ} (b : Bool) (r q : Result A)
    → halts r ≡ true
    → halts q ≡ true
    → halts (if b then r else q) ≡ true
halts-branch true r q h k = h
halts-branch false r q h k = k

-- What holds of the result, if there is one.
abbrev pub Ensures {ℓ κ} : {A : Type ℓ} → (A → Type κ) → Result A → Type κ
Ensures P (ok a) = P a
Ensures P (err e) = Unit

pub Ensures-bind {ℓ ℓ' κ κ'} :
    {A : Type ℓ} {B : Type ℓ'} (P : A → Type κ) (Q : B → Type κ') (r : Result A) (f : A → Result B)
    → Ensures P r
    → ((a : A) → P a → Ensures Q (f a))
    → Ensures Q (r >>= f)
Ensures-bind P Q (ok a) f h k = k a h
Ensures-bind P Q (err e) f h k = tt

pub Ensures-any {ℓ κ} : {A : Type ℓ} (P : A → Type κ) (r : Result A) → ((a : A) → P a) → Ensures P r
Ensures-any P (ok a) k = k a
Ensures-any P (err e) k = tt

pub Ensures_ok {ℓ κ} :
    {A : Type ℓ} (P : A → Type κ) (r : Result A) (a : A) → Ensures P r → r ≡ ok a → P a
Ensures_ok P r a h e = (rw e at h)

pub ok_eq {ℓ} : {A : Type ℓ} {a b : A} → ok a ≡ ok b → a ≡ b
ok_eq h = cc

pub err_of_map {ℓ κ} :
    {A : Type ℓ} {B : Type κ} (r : Result A) (f : A → B) {e : Error}
    → (r >>= λ a. ok (f a)) ≡ err e
    → r ≡ err e
err_of_map (ok a) f h = cc
err_of_map (err e') f h = cc

-- An exception comes from one of the two parts.
pub err_of_bind {ℓ κ} :
    {A : Type ℓ} {B : Type κ} (r : Result A) (f : A → Result B) {e : Error}
    → (r >>= f) ≡ err e
    → (r ≡ err e) ⊎ ((a : A) × (f a ≡ err e))
err_of_bind (ok a) f h = inr (a, h)
err_of_bind (err e') f h = inl (cc)

pub Ensures-of {ℓ κ} :
    {A : Type ℓ} (P : A → Type κ) (r : Result A) → ((a : A) → r ≡ ok a → P a) → Ensures P r
Ensures-of P (ok a) k = k a refl
Ensures-of P (err e) k = tt
