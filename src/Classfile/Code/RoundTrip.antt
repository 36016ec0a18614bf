-- ===== src/Classfile/Code/RoundTrip.antt =====
-- The walk of graph_core/bytecode/classfile.py stays in step with any well-formed code.
use graph_ingest_test.Prelude.{
  ◌∙◌, ℕ, zero, suc, ◌+◌, ◌*◌, ◌^◌, ◌≤◌, ◌<◌, ◌≡◌, refl, sym, ap, List, [], ◌∷◌, ◌++◌, none, some,
  true, false, length, flat_map, ltb, ◌==◌, drop, drop-at, length-append, append_assoc, arith,
  get_elem?-at,
}
use graph_ingest_test.Prelude.Result.{Result, ok, err, ◌>>=◌}
use graph_ingest_test.Prelude.Int.{ℤ, pos_part, neg_part, max_zero}
use graph_ingest_test.Classfile.Reader.RoundTrip.{be16, be32}
use graph_ingest_test.Classfile.Access.{Pool}
use graph_ingest_test.Classfile.Shapes.{
  InvokeOp, invokevirtual, invokespecial, invokestatic, invokeinterface, invokedynamic, FieldOp,
  getstatic, putstatic, getfield, putfield, MethodInfo,
}
use graph_ingest_test.Classfile.Lines.{LineTable}
use graph_ingest_test.Classfile.Code.{
  invoke_op, field_op, operand_len, signed, u16_at, i32_at, byte_at, padding, jump_count,
  skip_variable, scan_op, scan_loop, scan_code,
}
use graph_ingest_test.Classfile.Code.Assembly.{
  Instruction, plain, invoke, access, new, wide, wide_iinc, tableswitch, lookupswitch, opcode_of,
  operands_of, assemble, IsInstruction, IsProgram, effect, effects, IsPadding,
}
use graph_ingest_test.Classfile.Code.Lengths.{operand_len-eq}

u16_at-write :
    (code rest : List ℕ) (n at : ℕ) → drop at code ≡ be16 n ++ rest → u16_at code at ≡ ok n
unfolding u16_at
u16_at-write code rest n at h = rw h (ap ok (omega arith))

i32_at-write :
    (code rest : List ℕ) (n at : ℕ) → drop at code ≡ be32 n ++ rest → i32_at code at ≡ ok (signed n)
unfolding i32_at
i32_at-write code rest n at h = rw h (ap (λ (t : ℕ). ok (signed t)) (omega arith))

-- The position behind an instruction without edges.
module _ (pool : Pool) (lines : LineTable) where
  scan-plain :
      (code : List ℕ) (o op : ℕ) (operands : List ℕ) (m : MethodInfo)
      → IsInstruction o (plain op operands)
      → scan_op pool lines code o op m ≡ ok (suc o + length operands, m)
  scan-plain code o op operands m h =
      let no_call : invoke_op op ≡ none = unfold invoke_op in ground arith in
      let no_field : field_op op ≡ none = unfold field_op in ground arith in
      let no_new : op == 0xbb ≡ false = ground arith in
      let size : operand_len op ≡ some (length operands) = operand_len-eq op h.0 ∙ h.2 in
      unfold scan_op in rw (no_call, no_field, no_new, size) refl

abbrev next_pair : MethodInfo → ℕ → Result (ℕ × MethodInfo)
next_pair m n = ok (n, m)

pair-bind :
    {A : Type 0} (r : Result A) (g : A → MethodInfo) (n : ℕ)
    → ◌>>=◌ {B = ℕ × MethodInfo} r (λ a. ok (n, g a))
      ≡ ◌>>=◌ {B = ℕ × MethodInfo} (◌>>=◌ {B = MethodInfo} r (λ a. ok (g a))) (λ m'. ok (n, m'))
pair-bind (ok a) g n = refl
pair-bind (err e) g n = refl

regroup :
    (before : List ℕ) (op : ℕ) (pad skipped rest : List ℕ)
    → before ++ op ∷ (pad ++ (skipped ++ rest)) ≡ (before ++ op ∷ (pad ++ skipped)) ++ rest
regroup before op pad skipped rest = simp append_assoc

module _ (before : List ℕ) (o : ℕ) (at_end : o ≡ length before) where
  -- The index behind the opcode.
  index_at : (op n : ℕ) (rest : List ℕ) → u16_at (before ++ op ∷ (be16 n ++ rest)) (suc o) ≡ ok n
  index_at op n rest =
      u16_at-write _ rest n (suc o) (drop-at before (op ∷ (be16 n ++ rest)) 1 (suc o) (omega arith))

  -- A word behind the opcode, the padding and the bytes of other words.
  word_at :
      (op n at : ℕ) (pad skipped rest : List ℕ)
      → at ≡ suc o + length pad + length skipped
      → i32_at (before ++ op ∷ (pad ++ (skipped ++ (be32 n ++ rest)))) at ≡ ok (signed n)
  word_at op n at pad skipped rest h =
      let front = before ++ op ∷ (pad ++ skipped) in
      rw (regroup before op pad skipped (be32 n ++ rest)) (
        i32_at-write _ rest n at (
          drop-at front (be32 n ++ rest) 0 at (
            omega
              (arith, length-append before (op ∷ (pad ++ skipped)), length-append pad skipped))))

  wide_op_at :
      (op : ℕ) (rest : List ℕ)
      → (ltb (suc o) (length (before ++ 0xc4 ∷ op ∷ rest)) ≡ true)
        × (byte_at (before ++ 0xc4 ∷ op ∷ rest) (suc o) ≡ op)
  wide_op_at op rest = (
    ground (arith, length-append before (0xc4 ∷ op ∷ rest)),
    rw (get_elem?-at before (0xc4 ∷ op ∷ rest) 1 (suc o) (omega arith)) refl,
  )

-- The padding is what the code computes from the position.
padding-eq : (start : ℕ) (pad : List ℕ) → IsPadding start pad → padding start ≡ length pad
unfolding padding
padding-eq start pad h = omega arith

jump_count-eq :
    (low high : ℤ) (n : ℕ)
    → pos_part high + neg_part low + 1 ≡ n + (pos_part low + neg_part high)
    → jump_count low high ≡ n
unfolding jump_count
jump_count-eq low high n h = ground arith

-- A word below 2^31 stands for itself.
signed-eq : (n : ℕ) → n < 2 ^ 31 → max_zero (signed n) ≡ n
unfolding signed
signed-eq n h = ground arith

module _ (before : List ℕ) (o : ℕ) (at_end : o ≡ length before) (pad rest : List ℕ) where
  skip-tableswitch :
      (d low high n : ℕ)
      → IsPadding (suc o) pad
      → pos_part (signed high) + neg_part (signed low) + 1
        ≡ n + (pos_part (signed low) + neg_part (signed high))
      → skip_variable
          (before ++ 0xaa ∷ (pad ++ (be32 d ++ (be32 low ++ (be32 high ++ rest)))))
          0xaa
          (suc o)
        ≡ ok (suc o + (length pad + (12 + n * 4)))
  skip-tableswitch d low high n h e =
      unfold skip_variable in
      rw
        (
          padding-eq (suc o) pad h,
          word_at before o at_end 0xaa low (suc o + length pad + 4) pad (be32 d) (be32 high ++ rest)
              refl,
          word_at before o at_end 0xaa high (suc o + length pad + 8) pad (be32 d ++ be32 low) rest
              refl,
          jump_count-eq (signed low) (signed high) n e,
        )
        (ap ok (omega arith))

  skip-lookupswitch :
      (d n : ℕ)
      → IsPadding (suc o) pad
      → n < 2 ^ 31
      → skip_variable (before ++ 0xab ∷ (pad ++ (be32 d ++ (be32 n ++ rest)))) 0xab (suc o)
        ≡ ok (suc o + (length pad + (8 + n * 8)))
  skip-lookupswitch d n h small =
      unfold skip_variable in
      rw
        (
          padding-eq (suc o) pad h,
          word_at before o at_end 0xab n (suc o + length pad + 4) pad (be32 d) rest refl,
        )
        (ap ok (omega (arith, signed-eq n small)))

module _ (pool : Pool) (lines : LineTable) (before rest : List ℕ) (o : ℕ)
    (at_end : o ≡ length before) (m : MethodInfo) where
  abbrev Steps : Instruction → Type 0
  Steps i =
      scan_op pool lines (before ++ (assemble i ++ rest)) o (opcode_of i) m
      ≡ (do m' ← effect pool lines o i m; ok (suc o + length (operands_of i), m'))

  scan-invoke : (op : InvokeOp) (index a b : ℕ) → Steps (invoke op index a b)
  unfolding scan_op invoke_op
  scan-invoke invokevirtual index a b = rw (index_at before o at_end 182 index _) (pair-bind _ _ _)
  scan-invoke invokespecial index a b = rw (index_at before o at_end 183 index _) (pair-bind _ _ _)
  scan-invoke invokestatic index a b = rw (index_at before o at_end 184 index _) (pair-bind _ _ _)
  scan-invoke invokeinterface index a b =
      rw (index_at before o at_end 185 index _) (pair-bind _ _ _)
  scan-invoke invokedynamic index a b = rw (index_at before o at_end 186 index _) (pair-bind _ _ _)

  scan-access : (op : FieldOp) (index : ℕ) → Steps (access op index)
  unfolding scan_op invoke_op field_op
  scan-access getstatic index = rw (index_at before o at_end 178 index _) (pair-bind _ _ _)
  scan-access putstatic index = rw (index_at before o at_end 179 index _) (pair-bind _ _ _)
  scan-access getfield index = rw (index_at before o at_end 180 index _) (pair-bind _ _ _)
  scan-access putfield index = rw (index_at before o at_end 181 index _) (pair-bind _ _ _)

  scan-step : (i : Instruction) → IsInstruction o i → Steps i
  unfolding scan_op invoke_op field_op operand_len
  scan-step (plain op operands) h = scan-plain pool lines _ o op operands m h
  scan-step (invoke op index a b) h = scan-invoke op index a b
  scan-step (access op index) h = scan-access op index
  scan-step (new index) h = rw (index_at before o at_end 187 index _) (pair-bind _ _ _)
  scan-step (wide op index) h =
      let (inside, byte) = wide_op_at before o at_end op (be16 index ++ rest) in
      unfold skip_variable in rw (inside, byte, h) refl
  scan-step (wide_iinc index value) h =
      let (inside, byte) = wide_op_at before o at_end 0x84 (be16 index ++ (be16 value ++ rest)) in
      unfold skip_variable in rw (inside, byte) refl
  scan-step (tableswitch pad d low high n jumps) (fits, size, count) =
      rw
        (
          append_assoc pad (be32 d ++ (be32 low ++ (be32 high ++ jumps))) rest,
          skip-tableswitch before o at_end pad (jumps ++ rest) d low high n fits count,
        )
        (ap (next_pair m)
          (omega (arith, length-append pad (be32 d ++ (be32 low ++ (be32 high ++ jumps))))))
  scan-step (lookupswitch pad d n pairs) (fits, size, small) =
      rw
        (
          append_assoc pad (be32 d ++ (be32 n ++ pairs)) rest,
          skip-lookupswitch before o at_end pad (pairs ++ rest) d n fits small,
        )
        (ap (next_pair m) (omega (arith, length-append pad (be32 d ++ (be32 n ++ pairs)))))

bind-cong :
    (r : Result MethodInfo) (n : ℕ) (f : ℕ × MethodInfo → Result MethodInfo)
    (g : MethodInfo → Result MethodInfo)
    → ((m : MethodInfo) → f (n, m) ≡ g m)
    → ◌>>=◌ {B = MethodInfo} (◌>>=◌ {B = ℕ × MethodInfo} r (λ m. ok (n, m))) f
      ≡ ◌>>=◌ {B = MethodInfo} r g
bind-cong (ok m) n f g h = h m
bind-cong (err e) n f g h = refl

scan_loop-assemble :
    (pool : Pool) (lines : LineTable) (code : List ℕ) (is : List Instruction) (before : List ℕ)
    (fuel o : ℕ) (m : MethodInfo)
    → code ≡ before ++ flat_map assemble is
    → o ≡ length before
    → length code ≤ fuel + o
    → IsProgram o is
    → scan_loop pool lines code fuel o m ≡ effects pool lines o is m
unfolding scan_loop
scan_loop-assemble pool lines code [] before zero o m hc ho hf h =
    let test : ltb o (length code) ≡ false =
      ground (arith, ap length hc, length-append before []) in
    rw test refl
scan_loop-assemble pool lines code [] before (suc fuel) o m hc ho hf h =
    let test : ltb o (length code) ≡ false =
      ground (arith, ap length hc, length-append before []) in
    rw (test, scan_loop) refl
scan_loop-assemble pool lines code (i ∷ is) before zero o m hc ho hf h =
    absurd (omega (arith, ap length hc, length-append before (assemble i ++ flat_map assemble is)))
scan_loop-assemble pool lines code (i ∷ is) before (suc fuel) o m hc ho hf h =
    let whole = before ++ (assemble i ++ flat_map assemble is) in
    let test : ltb o (length code) ≡ true =
      ground (arith, ap length hc, length-append before (assemble i ++ flat_map assemble is)) in
    let byte : byte_at code o ≡ opcode_of i =
      rw hc
        (rw (get_elem?-at before (assemble i ++ flat_map assemble is) 0 o (omega arith)) refl) in
    let step : scan_op pool lines code o (opcode_of i) m
        ≡ ◌>>=◌ {B = ℕ × MethodInfo} (effect pool lines o i m)
            (λ m'. next_pair m' (suc o + length (operands_of i))) =
      rw hc (scan-step pool lines before (flat_map assemble is) o ho m i h.0) in
    rw (test, byte, step, scan_loop)
      (bind-cong (effect pool lines o i m) (suc o + length (operands_of i)) _ _ (λ m'.
        scan_loop-assemble pool lines code is (before ++ assemble i) fuel
          (suc o + length (operands_of i)) m'
          (hc ∙ sym (append_assoc before (assemble i) (flat_map assemble is)))
          (omega (arith, length-append before (assemble i))) (omega arith) h.1))

-- Over code that is written instruction by instruction, each well-formed at its offset, the walk
-- returns what the instructions contribute one after another, each at its own offset, or the error
-- of the first whose constants do not resolve.
pub scan_code-assemble :
    (pool : Pool) (lines : LineTable) (is : List Instruction) (m : MethodInfo)
    → IsProgram 0 is
    → scan_code (flat_map assemble is) pool lines m ≡ effects pool lines 0 is m
unfolding scan_code
scan_code-assemble pool lines is m h =
    scan_loop-assemble pool lines (flat_map assemble is) is [] (length (flat_map assemble is)) 0 m
      refl refl (omega arith) h
