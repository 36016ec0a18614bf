-- ===== src/Classfile/Pool/Halting.antt =====
-- The loop over the constant pool ends on any bytes (graph_core/bytecode/classfile.py).
use graph_ingest_test.Prelude.{
  ℕ, zero, suc, ◌+◌, ◌<◌, ◌≤◌, ◌≡◌, refl, List, true, some, ltb, ◌==◌, set, Option-cases,
  Bool-cases, inl, inr, arith,
}
use graph_ingest_test.Prelude.Result.{
  Result, class_file_error, struct_error, out_of_fuel, ok, err, halts,
}
use graph_ingest_test.Classfile.Reader.{Reader, M, ◌>>=◌, pure}
use graph_ingest_test.Classfile.Reader.Halting.{
  Halts, Halts-bind, Halts-pure, Halts-lift, Halts-take_bytes, Halts-u1, Halts-u2,
}
use graph_ingest_test.Classfile.Pool.{
  Entry, Format, number_of, h, hh, cp_layout, read_fixed, read_constant, pool_loop,
  parse_constant_pool,
}

-- A slot at least is taken where a constant is read.
abbrev TakesSlot : Result ((Entry × ℕ) × Reader) → Type 0
TakesSlot (ok ((e, slots), r)) = 0 < slots
TakesSlot (err class_file_error) = Unit
TakesSlot (err struct_error) = Unit
TakesSlot (err out_of_fuel) = ⊥

record Takes (m : M (Entry × ℕ)) : Type 0 where
  pub at : (r : Reader) → TakesSlot (m r)

slot_after :
    {A : Type 0} (x : Result (A × Reader)) (f : A → M (Entry × ℕ))
    → halts x ≡ true
    → ((a : A) → Takes (f a))
    → TakesSlot (elim x [ ok (a, r) ↦ f a r | err e ↦ err e ])
slot_after (ok (a, r)) f q k = (k a).at r
slot_after (err class_file_error) f q k = tt
slot_after (err struct_error) f q k = tt
slot_after (err out_of_fuel) f q k = cc

Takes-bind :
    {A : Type 0} {m : M A} (f : A → M (Entry × ℕ))
    → Halts m
    → ((a : A) → Takes (f a))
    → Takes (m >>= f)
Takes-bind {m = m} f q k = record { at = λ r. slot_after (m r) f (q.at r) k }

Takes-pure : (e : Entry) (slots : ℕ) → 0 < slots → Takes (pure (e, slots))
Takes-pure e slots q = record { at = λ r. q }

halts_behind :
    {B : Type 0} (x : Result ((Entry × ℕ) × Reader)) (f : Entry × ℕ → M B)
    → TakesSlot x
    → ((e : Entry) (slots : ℕ) → 0 < slots → Halts (f (e, slots)))
    → halts (elim x [ ok (a, r) ↦ f a r | err e ↦ err e ]) ≡ true
halts_behind (ok ((e, slots), r)) f q k = (k e slots q).at r
halts_behind (err class_file_error) f q k = refl
halts_behind (err struct_error) f q k = refl
halts_behind (err out_of_fuel) f q k = absurd q

Halts-behind :
    {B : Type 0} {m : M (Entry × ℕ)} (f : Entry × ℕ → M B)
    → Takes m
    → ((e : Entry) (slots : ℕ) → 0 < slots → Halts (f (e, slots)))
    → Halts (m >>= f)
Halts-behind {m = m} f q k = record { at = λ r. halts_behind (m r) f (q.at r) k }

Halts-read_fixed : (tag : ℕ) (fmt : Format) → Halts (read_fixed tag fmt)
unfolding read_fixed
Halts-read_fixed tag (number_of n) = Halts-bind _ (Halts-take_bytes n) (λ chunk. Halts-pure _)
Halts-read_fixed tag h = Halts-bind _ Halts-u2 (λ a. Halts-pure _)
Halts-read_fixed tag hh = Halts-bind _ Halts-u2 (λ a. Halts-bind _ Halts-u2 (λ b. Halts-pure _))

cp_layout-positive : (tag slots : ℕ) (fmt : Format) → cp_layout tag ≡ some (fmt, slots) → 0 < slots
unfolding cp_layout
cp_layout-positive tag slots fmt q = ground arith

read_constant-Takes : (tag : ℕ) → Takes (read_constant tag)
unfolding read_constant
read_constant-Takes tag = elim (Bool-cases (tag == 1)) [
  | inl e ↦ rw e (
      Takes-bind _ Halts-u2
        (λ n. Takes-bind _ (Halts-take_bytes n) (λ chunk. Takes-pure _ 1 (omega arith))))
  | inr d ↦ elim (Bool-cases (tag == 15)) [
    | inl e ↦
        rw (d, e)
          (Takes-bind _ Halts-u1
            (λ kind. Takes-bind _ Halts-u2 (λ index. Takes-pure _ 1 (omega arith))))
    | inr e ↦ elim (Option-cases (cp_layout tag)) [
      | inl none_at ↦ rw (d, e, none_at) (record { at = λ r. tt })
      | inr ((fmt, slots), at) ↦
          rw (d, e, at)
            (Takes-bind _ (Halts-read_fixed tag fmt)
              (λ entry. Takes-pure entry slots (cp_layout-positive tag slots fmt at)))
    ]
  ]
]

Halts-pool_loop :
    (fuel count i : ℕ) (pool : List Entry) → count ≤ i + fuel → Halts (pool_loop fuel count i pool)
unfolding pool_loop
Halts-pool_loop zero count i pool q = Halts-lift _ (ground arith)
Halts-pool_loop (suc fuel) count i pool q = elim (Bool-cases (ltb i count)) [
  | inl more ↦
      rw (more, pool_loop)
        (Halts-bind _ Halts-u1 (λ tag. Halts-behind _ (read_constant-Takes tag) (λ e slots positive.
          Halts-pool_loop fuel count (i + slots) (set pool i e) (omega arith))))
  | inr done ↦ rw (done, pool_loop) (Halts-pure pool)
]

pub Halts-parse_constant_pool : (count : ℕ) → Halts (parse_constant_pool count)
unfolding parse_constant_pool
Halts-parse_constant_pool count = Halts-pool_loop count count 1 _ (omega arith)
