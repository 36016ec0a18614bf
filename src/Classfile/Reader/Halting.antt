-- ===== src/Classfile/Reader/Halting.antt =====
-- Reading takes no fuel (graph_core/bytecode/classfile.py, `_Reader`).
use graph_ingest_test.Prelude.{ℕ, zero, suc, ◌+◌, ◌≡◌, refl, List, [], ◌∷◌, true, length, ltb}
use graph_ingest_test.Prelude.Result.{
  Result, class_file_error, struct_error, out_of_fuel, ok, err, halts, halts-branch,
}
use graph_ingest_test.Classfile.Reader.{
  Reader, M, ◌>>=◌, pure, lift, unpack_h, unpack_i, first_byte, take_bytes, u1, u2, u4, skip,
  repeat, run,
}

pub halts-unpack_h : (bs : List ℕ) → halts (unpack_h bs) ≡ true
halts-unpack_h [] = refl
halts-unpack_h (a ∷ []) = refl
halts-unpack_h (a ∷ b ∷ []) = refl
halts-unpack_h (a ∷ b ∷ c ∷ bs) = refl

pub halts-unpack_i : (bs : List ℕ) → halts (unpack_i bs) ≡ true
halts-unpack_i [] = refl
halts-unpack_i (a ∷ []) = refl
halts-unpack_i (a ∷ b ∷ []) = refl
halts-unpack_i (a ∷ b ∷ c ∷ []) = refl
halts-unpack_i (a ∷ b ∷ c ∷ d ∷ []) = refl
halts-unpack_i (a ∷ b ∷ c ∷ d ∷ e ∷ bs) = refl

-- From every cursor the reader ends with a result or an exception.
pub record Halts {A : Type 0} (m : M A) : Type 0 where
  pub at : (r : Reader) → halts (m r) ≡ true

after_step :
    {A B : Type 0} (x : Result (A × Reader)) (f : A → M B)
    → halts x ≡ true
    → ((a : A) → Halts (f a))
    → halts (elim x [ ok (a, r) ↦ f a r | err e ↦ err e ]) ≡ true
after_step (ok (a, r)) f h k = (k a).at r
after_step (err class_file_error) f h k = refl
after_step (err struct_error) f h k = refl
after_step (err out_of_fuel) f h k = cc

pub Halts-bind :
    {A B : Type 0} {m : M A} (f : A → M B) → Halts m → ((a : A) → Halts (f a)) → Halts (m >>= f)
Halts-bind {m = m} f h k = record { at = λ r. after_step (m r) f (h.at r) k }

pub Halts-pure : {A : Type 0} (a : A) → Halts (pure a)
Halts-pure a = record { at = λ r. refl }

pub Halts-lift : {A : Type 0} (x : Result A) → halts x ≡ true → Halts (lift x)
Halts-lift (ok a) h = record { at = λ r. refl }
Halts-lift (err class_file_error) h = record { at = λ r. refl }
Halts-lift (err struct_error) h = record { at = λ r. refl }
Halts-lift (err out_of_fuel) h = cc

pub Halts-take_bytes : (n : ℕ) → Halts (take_bytes n)
unfolding take_bytes
Halts-take_bytes n = record {
  at = λ r. halts-branch (ltb (length r.bytes) (r.pos + n)) _ _ refl refl;
}

halts-first_byte : (bs : List ℕ) → halts (first_byte bs) ≡ true
halts-first_byte [] = refl
halts-first_byte (b ∷ bs) = refl

pub Halts-u1 : Halts u1
unfolding u1
Halts-u1 =
    Halts-bind _ (Halts-take_bytes 1) (λ bs. Halts-lift (first_byte bs) (halts-first_byte bs))

pub Halts-u2 : Halts u2
unfolding u2
Halts-u2 = Halts-bind _ (Halts-take_bytes 2) (λ bs. Halts-lift (unpack_h bs) (halts-unpack_h bs))

pub Halts-u4 : Halts u4
unfolding u4
Halts-u4 = Halts-bind _ (Halts-take_bytes 4) (λ bs. Halts-lift (unpack_i bs) (halts-unpack_i bs))

pub Halts-skip : (n : ℕ) → Halts (skip n)
unfolding skip
Halts-skip n = record { at = λ r. halts-branch (ltb (length r.bytes) (r.pos + n)) _ _ refl refl }

pub Halts-repeat : {A : Type 0} {m : M A} (n : ℕ) → Halts m → Halts (repeat n m)
unfolding repeat
Halts-repeat zero h = Halts-pure _
Halts-repeat (suc n) h =
    Halts-bind _ h (λ x. Halts-bind _ (Halts-repeat n h) (λ rest. Halts-pure (x ∷ rest)))

pub halts-run : {A : Type 0} (m : M A) (body : List ℕ) → Halts m → halts (run m body) ≡ true
unfolding run
halts-run m body h =
    drop_cursor (m (record { bytes = body; pos = 0 })) (h.at (record { bytes = body; pos = 0 }))
  where
    drop_cursor :
        {A : Type 0} (x : Result (A × Reader))
        → halts x ≡ true
        → halts (elim x [ ok (a, r) ↦ ok a | err e ↦ err e ]) ≡ true
    drop_cursor (ok (a, r)) h = refl
    drop_cursor (err class_file_error) h = refl
    drop_cursor (err struct_error) h = refl
    drop_cursor (err out_of_fuel) h = cc
