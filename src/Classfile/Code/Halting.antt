-- ===== src/Classfile/Code/Halting.antt =====
-- The walk over any code ends (graph_core/bytecode/classfile.py, `_scan_code`).
use graph_ingest_test.Prelude.{
  ℕ, zero, suc, ◌+◌, ◌<◌, ◌≤◌, ◌≡◌, refl, List, Bool, true, false, Option, none, some, length, take,
  drop, if◌then◌else◌, ltb, ◌==◌, Bool-cases, inl, inr, arith,
}
use graph_ingest_test.Prelude.Result.{
  Result, class_file_error, struct_error, out_of_fuel, ok, err, ◌>>=◌, halts, halts-bind,
}
use graph_ingest_test.Classfile.Reader.Halting.{halts-unpack_h, halts-unpack_i}
use graph_ingest_test.Classfile.Access.{Pool}
use graph_ingest_test.Classfile.Access.Halting.{
  halts-class_name, halts-member_ref, halts-invokedynamic_nat,
}
use graph_ingest_test.Classfile.Shapes.{
  InvokeOp, invokevirtual, invokespecial, invokestatic, invokeinterface, invokedynamic, FieldOp,
  MethodInfo,
}
use graph_ingest_test.Classfile.Lines.{LineTable}
use graph_ingest_test.Classfile.Code.{
  u16_at, i32_at, call_target, padding, byte_at, invoke_len, skip_variable, scan_as, scan_op,
  scan_loop, scan_code,
}

halts-call_target :
    (pool : Pool) (op : InvokeOp) (index : ℕ) → halts (call_target pool op index) ≡ true
unfolding call_target
halts-call_target pool invokedynamic index =
    halts-bind _ _ (halts-invokedynamic_nat pool index) (λ x. refl)
halts-call_target pool invokevirtual index = halts-member_ref pool index
halts-call_target pool invokespecial index = halts-member_ref pool index
halts-call_target pool invokestatic index = halts-member_ref pool index
halts-call_target pool invokeinterface index = halts-member_ref pool index

-- A step that raises, or whose next position lies behind the offset.
module _ {A : Type 0} (next : A → ℕ) (offset : ℕ) where
  abbrev Advances : Result A → Type 0
  Advances (ok a) = offset < next a
  Advances (err class_file_error) = Unit
  Advances (err struct_error) = Unit
  Advances (err out_of_fuel) = ⊥

  Advances-bind :
      {B : Type 0} (r : Result B) (f : B → Result A)
      → halts r ≡ true
      → ((b : B) → Advances (f b))
      → Advances (r >>= f)
  Advances-bind (ok b) f h k = k b
  Advances-bind (err class_file_error) f h k = tt
  Advances-bind (err struct_error) f h k = tt
  Advances-bind (err out_of_fuel) f h k = cc

  Advances-branch :
      (b : Bool) (r q : Result A) → Advances r → Advances q → Advances (if b then r else q)
  Advances-branch true r q h k = h
  Advances-branch false r q h k = k

halts-u16_at : (code : List ℕ) (at : ℕ) → halts (u16_at code at) ≡ true
unfolding u16_at
halts-u16_at code at = halts-unpack_h (take 2 (drop at code))

halts-i32_at : (code : List ℕ) (at : ℕ) → halts (i32_at code at) ≡ true
unfolding i32_at
halts-i32_at code at = halts-bind _ _ (halts-unpack_i (take 4 (drop at code))) (λ n. refl)

skip_variable-Advances :
    (code : List ℕ) (op offset : ℕ) → Advances (λ n. n) offset (skip_variable code op (suc offset))
unfolding skip_variable
skip_variable-Advances code op offset =
    let base = suc offset + padding (suc offset) in
    Advances-branch (λ n. n) offset (op == 0xc4) _ _
      (Advances-branch (λ n. n) offset (ltb (suc offset) (length code)) _ _
        (wide_end (byte_at code (suc offset) == 0x84)) tt)
      (Advances-branch (λ n. n) offset (op == 0xaa) _ _
        (Advances-bind (λ n. n) offset _ _ (halts-i32_at code (base + 4))
          (λ low.
            Advances-bind (λ n. n) offset _ _ (halts-i32_at code (base + 8)) (λ high. omega arith)))
        (Advances-bind (λ n. n) offset _ _ (halts-i32_at code (base + 4)) (λ n. omega arith)))
  where
    wide_end : (b : Bool) → offset < (if b then suc offset + 5 else suc offset + 3)
    wide_end true = omega arith
    wide_end false = omega arith

abbrev next_of : ℕ × MethodInfo → ℕ
next_of (n, m) = n

invoke_len-positive : (op : InvokeOp) → 0 < invoke_len op
invoke_len-positive invokevirtual = omega arith
invoke_len-positive invokespecial = omega arith
invoke_len-positive invokestatic = omega arith
invoke_len-positive invokeinterface = omega arith
invoke_len-positive invokedynamic = omega arith

-- A loop that halts from every later position halts behind a step that advances.
Advances-next :
    {B : Type 0} (offset : ℕ) (r : Result (ℕ × MethodInfo)) (f : ℕ × MethodInfo → Result B)
    → Advances next_of offset r
    → ((next : ℕ) (m : MethodInfo) → offset < next → halts (f (next, m)) ≡ true)
    → halts (r >>= f) ≡ true
Advances-next offset (ok (next, m)) f a k = k next m a
Advances-next offset (err class_file_error) f a k = refl
Advances-next offset (err struct_error) f a k = refl
Advances-next offset (err out_of_fuel) f a k = absurd a

module _ (pool : Pool) (lines : LineTable) (code : List ℕ) where
  scan_as-Advances :
      (call : Option InvokeOp) (field : Option FieldOp) (is_new : Bool) (len : Option ℕ)
      (offset op : ℕ) (m : MethodInfo)
      → Advances next_of offset (scan_as pool lines code call field is_new len offset op m)
  unfolding scan_as
  scan_as-Advances (some opcode) field is_new len offset op m =
      Advances-bind next_of offset _ _ (halts-u16_at code (suc offset)) (λ index.
        Advances-bind next_of offset _ _ (halts-call_target pool opcode index)
          (λ target. omega (arith, invoke_len-positive opcode)))
  scan_as-Advances none (some opcode) is_new len offset op m =
      Advances-bind next_of offset _ _ (halts-u16_at code (suc offset)) (λ index.
        Advances-bind next_of offset _ _ (halts-member_ref pool index) (λ target. omega arith))
  scan_as-Advances none none true len offset op m =
      Advances-bind next_of offset _ _ (halts-u16_at code (suc offset)) (λ index.
        Advances-bind next_of offset _ _ (halts-class_name pool index) (λ class. omega arith))
  scan_as-Advances none none false (some n) offset op m = omega arith
  scan_as-Advances none none false none offset op m =
      keep (skip_variable code op (suc offset)) (skip_variable-Advances code op offset)
    where
      keep :
          (r : Result ℕ)
          → Advances (λ n. n) offset r
          → Advances next_of offset (do next ← r; ok (next, m))
      keep (ok n) h = h
      keep (err class_file_error) h = tt
      keep (err struct_error) h = tt
      keep (err out_of_fuel) h = h

  scan_op-Advances :
      (offset op : ℕ) (m : MethodInfo)
      → Advances next_of offset (scan_op pool lines code offset op m)
  unfolding scan_op
  scan_op-Advances offset op m = scan_as-Advances _ _ _ _ offset op m

  halts-scan_loop :
      (fuel offset : ℕ) (m : MethodInfo)
      → length code ≤ offset + fuel
      → halts (scan_loop pool lines code fuel offset m) ≡ true
  unfolding scan_loop
  halts-scan_loop zero offset m h = ground arith
  halts-scan_loop (suc fuel) offset m h = elim (Bool-cases (ltb offset (length code))) [
    | inl more ↦
        rw (more, scan_loop)
          (Advances-next offset _ _ (scan_op-Advances offset (byte_at code offset) m)
            (λ next m' behind. halts-scan_loop fuel next m' (omega arith)))
    | inr done ↦ rw (done, scan_loop) refl
  ]

-- The walk ends on every byte sequence, well-formed or not, with the method or an exception: the
-- length of the code is fuel enough, since every instruction moves the position on.
pub halts-scan_code :
    (code : List ℕ) (pool : Pool) (lines : LineTable) (m : MethodInfo)
    → halts (scan_code code pool lines m) ≡ true
unfolding scan_code
halts-scan_code code pool lines m = halts-scan_loop pool lines code (length code) 0 m (omega arith)
