-- ===== src/Classfile/Pool/RoundTrip.antt =====
-- Reading a constant pool back (graph_core/bytecode/classfile.py, `_parse_constant_pool`), against
-- the layout of JVMS 4.4.
use graph_ingest_test.Prelude.{
  ℕ, zero, suc, ◌+◌, ◌≤◌, ◌≡◌, refl, List, [], ◌∷◌, ◌++◌, length, set, replicate, arith,
  length-append, set-append, append_assoc, ltb, flat_map, true, false,
}
use graph_ingest_test.Classfile.Utf8.{decode}
use graph_ingest_test.Classfile.Reader.RoundTrip.{
  Reads, Reads-bind, Reads-last, Reads-lift, Reads-pure, Reads-take, Reads-u1, Reads-u2, be16, be32,
}
use graph_ingest_test.Classfile.Pool.{
  Entry, blank, utf8_text, numeric, single, pair, method_handle, number_of, h, hh, cp_layout,
  read_fixed, read_constant, pool_loop, parse_constant_pool,
}

-- The constants of JVMS 4.4. A number is given by its 32-bit words.
pub data Constant : Type 0 where
  utf8 : List ℕ → Constant
  integer float : ℕ → Constant
  long double : ℕ → ℕ → Constant
  class string method_type module_name package_name : ℕ → Constant
  field_ref method_ref interface_method_ref name_and_type dynamic invoke_dynamic : ℕ → ℕ → Constant
  handle : ℕ → ℕ → Constant

abbrev tag_of : Constant → ℕ
tag_of (utf8 bs) = 1
tag_of (integer n) = 3
tag_of (float n) = 4
tag_of (long hi lo) = 5
tag_of (double hi lo) = 6
tag_of (class n) = 7
tag_of (string n) = 8
tag_of (field_ref a b) = 9
tag_of (method_ref a b) = 10
tag_of (interface_method_ref a b) = 11
tag_of (name_and_type a b) = 12
tag_of (handle k n) = 15
tag_of (method_type n) = 16
tag_of (dynamic a b) = 17
tag_of (invoke_dynamic a b) = 18
tag_of (module_name n) = 19
tag_of (package_name n) = 20

abbrev body_of : Constant → List ℕ
body_of (utf8 bs) = be16 (length bs) ++ bs
body_of (integer n) = be32 n
body_of (float n) = be32 n
body_of (long hi lo) = be32 hi ++ be32 lo
body_of (double hi lo) = be32 hi ++ be32 lo
body_of (class n) = be16 n
body_of (string n) = be16 n
body_of (field_ref a b) = be16 a ++ be16 b
body_of (method_ref a b) = be16 a ++ be16 b
body_of (interface_method_ref a b) = be16 a ++ be16 b
body_of (name_and_type a b) = be16 a ++ be16 b
body_of (handle k n) = k ∷ be16 n
body_of (method_type n) = be16 n
body_of (dynamic a b) = be16 a ++ be16 b
body_of (invoke_dynamic a b) = be16 a ++ be16 b
body_of (module_name n) = be16 n
body_of (package_name n) = be16 n

abbrev pub write_constant : Constant → List ℕ
write_constant c = tag_of c ∷ body_of c

abbrev pub entry_of : Constant → Entry
entry_of (utf8 bs) = utf8_text (decode bs)
entry_of (integer n) = numeric 3 (be32 n)
entry_of (float n) = numeric 4 (be32 n)
entry_of (long hi lo) = numeric 5 (be32 hi ++ be32 lo)
entry_of (double hi lo) = numeric 6 (be32 hi ++ be32 lo)
entry_of (class n) = single 7 n
entry_of (string n) = single 8 n
entry_of (field_ref a b) = pair 9 a b
entry_of (method_ref a b) = pair 10 a b
entry_of (interface_method_ref a b) = pair 11 a b
entry_of (name_and_type a b) = pair 12 a b
entry_of (handle k n) = method_handle k n
entry_of (method_type n) = single 16 n
entry_of (dynamic a b) = pair 17 a b
entry_of (invoke_dynamic a b) = pair 18 a b
entry_of (module_name n) = single 19 n
entry_of (package_name n) = single 20 n

-- The unusable slot behind a Long or a Double.
abbrev pub second_slot : Constant → List Entry
second_slot (long hi lo) = blank ∷ []
second_slot (double hi lo) = blank ∷ []
second_slot _ = []

-- The slots of the constants, from index 1 on.
abbrev pub slots_of : List Constant → List Entry
slots_of [] = []
slots_of (c ∷ cs) = entry_of c ∷ (second_slot c ++ slots_of cs)

Reads-number :
    (tag : ℕ) (bs : List ℕ) → Reads (read_fixed tag (number_of (length bs))) bs (numeric tag bs)
unfolding read_fixed
Reads-number tag bs = Reads-last _ (Reads-take bs) (Reads-pure (numeric tag bs))

Reads-single : (tag n : ℕ) → Reads (read_fixed tag h) (be16 n) (single tag n)
unfolding read_fixed
Reads-single tag n = Reads-last _ (Reads-u2 n) (Reads-pure (single tag n))

Reads-pair : (tag a b : ℕ) → Reads (read_fixed tag hh) (be16 a ++ be16 b) (pair tag a b)
unfolding read_fixed
Reads-pair tag a b =
    Reads-bind _ (Reads-u2 a) (Reads-last _ (Reads-u2 b) (Reads-pure (pair tag a b)))

Reads-constant :
    (c : Constant)
    → Reads (read_constant (tag_of c)) (body_of c) (entry_of c, suc (length (second_slot c)))
unfolding read_constant cp_layout
Reads-constant (utf8 bs) = Reads-bind _ (Reads-u2 _) (Reads-last _ (Reads-take bs) (Reads-pure _))
Reads-constant (integer n) = Reads-last _ (Reads-number 3 (be32 n)) (Reads-pure _)
Reads-constant (float n) = Reads-last _ (Reads-number 4 (be32 n)) (Reads-pure _)
Reads-constant (long hi lo) = Reads-last _ (Reads-number 5 (be32 hi ++ be32 lo)) (Reads-pure _)
Reads-constant (double hi lo) = Reads-last _ (Reads-number 6 (be32 hi ++ be32 lo)) (Reads-pure _)
Reads-constant (class n) = Reads-last _ (Reads-single 7 n) (Reads-pure _)
Reads-constant (string n) = Reads-last _ (Reads-single 8 n) (Reads-pure _)
Reads-constant (field_ref a b) = Reads-last _ (Reads-pair 9 a b) (Reads-pure _)
Reads-constant (method_ref a b) = Reads-last _ (Reads-pair 10 a b) (Reads-pure _)
Reads-constant (interface_method_ref a b) = Reads-last _ (Reads-pair 11 a b) (Reads-pure _)
Reads-constant (name_and_type a b) = Reads-last _ (Reads-pair 12 a b) (Reads-pure _)
Reads-constant (handle k n) = Reads-bind _ (Reads-u1 k) (Reads-last _ (Reads-u2 n) (Reads-pure _))
Reads-constant (method_type n) = Reads-last _ (Reads-single 16 n) (Reads-pure _)
Reads-constant (dynamic a b) = Reads-last _ (Reads-pair 17 a b) (Reads-pure _)
Reads-constant (invoke_dynamic a b) = Reads-last _ (Reads-pair 18 a b) (Reads-pure _)
Reads-constant (module_name n) = Reads-last _ (Reads-single 19 n) (Reads-pure _)
Reads-constant (package_name n) = Reads-last _ (Reads-single 20 n) (Reads-pure _)

replicate-second :
    (c : Constant) (rest : List Entry)
    → replicate (length (second_slot c ++ rest)) blank
      ≡ second_slot c ++ replicate (length rest) blank
replicate-second (long hi lo) rest = refl
replicate-second (double hi lo) rest = refl
replicate-second _ rest = refl

-- A write at the first unwritten slot, and what is left to write.
set-next :
    (done rest : List Entry) (c : Constant)
    → set
        (done ++ replicate (length (entry_of c ∷ (second_slot c ++ rest))) blank)
        (length done)
        (entry_of c)
      ≡ (done ++ (entry_of c ∷ second_slot c)) ++ replicate (length rest) blank
set-next done rest c =
    rw (set-append, replicate-second, append_assoc done (entry_of c ∷ second_slot c)) refl

Reads-pool_loop :
    (cs : List Constant) (done pool : List Entry) (fuel count i : ℕ)
    → length (slots_of cs) ≤ fuel
    → i ≡ length done
    → count ≡ i + length (slots_of cs)
    → pool ≡ done ++ replicate (length (slots_of cs)) blank
    → Reads (pool_loop fuel count i pool) (flat_map write_constant cs) (done ++ slots_of cs)
unfolding pool_loop
Reads-pool_loop [] done pool zero count i f hi hc hp =
    let test : ltb i count ≡ false = ground arith in rw (hp, test, pool_loop) (Reads-lift refl)
Reads-pool_loop [] done pool (suc fuel) count i f hi hc hp =
    let test : ltb i count ≡ false = ground arith in rw hp (rw (test, pool_loop) (Reads-pure _))
Reads-pool_loop (c ∷ cs) done pool zero count i f hi hc hp = absurd (omega arith)
Reads-pool_loop (c ∷ cs) done pool (suc fuel) count i f hi hc hp =
    let test : ltb i count ≡ true = ground arith in
    rw (test, pool_loop)
      (Reads-bind _ (Reads-u1 (tag_of c)) (
        Reads-bind _ (Reads-constant c) (
          rw (append_assoc done (entry_of c ∷ second_slot c) (slots_of cs)) at (
            Reads-pool_loop cs (done ++ (entry_of c ∷ second_slot c)) (set pool i (entry_of c)) fuel
              count (i + suc (length (second_slot c)))
              (omega (arith, length-append (second_slot c) (slots_of cs)))
              (omega (arith, length-append done (entry_of c ∷ second_slot c)))
              (omega (arith, length-append (second_slot c) (slots_of cs)))
              (rw (hp, hi) (set-next done (slots_of cs) c))))))

-- A pool that is written constant by constant is read to its slots: index 0 is unused, each
-- constant stands at its own index, and a Long or a Double is followed by an unusable slot.
-- Nothing behind the pool is read.
pub parse_constant_pool-write :
    (cs : List Constant)
    → Reads
        (parse_constant_pool (suc (length (slots_of cs))))
        (flat_map write_constant cs)
        (blank ∷ slots_of cs)
unfolding parse_constant_pool
parse_constant_pool-write cs =
    Reads-pool_loop cs (blank ∷ []) _ _ _ 1 (omega arith) refl (omega arith) refl
