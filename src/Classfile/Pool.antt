-- ===== src/Classfile/Pool.antt =====
-- The constant pool of a class file (graph_core/bytecode/classfile.py: `_CP_LAYOUT`,
-- `_parse_constant_pool` and the typed accessors of `_Pool`).
pub mod RoundTrip
pub mod Halting
use graph_ingest_test.Prelude.{
  ℕ, zero, suc, ◌+◌, List, [], ◌∷◌, Option, none, some, Bool, true, false, ◌&&◌, ◌||◌, length,
  get_elem?, set, replicate, ltb, ◌==◌, if◌then◌else◌, Text, replace_char,
}
use graph_ingest_test.Prelude.Result.{Result, ok, err, class_file_error, out_of_fuel}
use graph_ingest_test.Classfile.Utf8.{decode}
use graph_ingest_test.Classfile.Reader.{M, ◌>>=◌, pure, lift, take_bytes, u1, u2, unpack_h}

-- What `pool[i]` holds: `None`, the text of a Utf8 constant, or the tuple that begins with the
-- tag. Of the four numeric tags (3 to 6) the value is kept as its bytes: nothing reads it.
pub data Entry : Type 0 where
  blank : Entry
  utf8_text : Text → Entry
  numeric : ℕ → List ℕ → Entry
  single : ℕ → ℕ → Entry
  pair : ℕ → ℕ → ℕ → Entry
  method_handle : ℕ → ℕ → Entry

-- The struct formats of the table: a number of `n` bytes, ">H" and ">HH".
pub data Format : Type 0 where
  number_of : ℕ → Format
  h hh : Format

-- `_CP_LAYOUT.get(tag)`: the format and the slots consumed.
cp_layout : ℕ → Option (Format × ℕ)
cp_layout tag =
    if tag == 3 || tag == 4
    then some (number_of 4, 1)
    else if tag == 5 || tag == 6
    then some (number_of 8, 2)
    else if tag == 7 || tag == 8 || tag == 16 || tag == 19 || tag == 20
    then some (h, 1)
    else if tag == 9 || tag == 10 || tag == 11 || tag == 12 || tag == 17 || tag == 18
    then some (hh, 1)
    else none

-- `(tag, *struct.unpack(fmt, r._take(struct.calcsize(fmt))))`
read_fixed : ℕ → Format → M Entry
read_fixed tag (number_of n) = do chunk ← take_bytes n; pure (numeric tag chunk)
read_fixed tag h = do a ← u2; pure (single tag a)
read_fixed tag hh = do a ← u2; b ← u2; pure (pair tag a b)

-- One constant behind its tag, and the slots that it takes.
read_constant : ℕ → M (Entry × ℕ)
read_constant tag =
    if tag == 1
    then (do n ← u2; chunk ← take_bytes n; pure (utf8_text (decode chunk), 1))
    else if tag == 15
    then (do kind ← u1; index ← u2; pure (method_handle kind index, 1))
    else elim (cp_layout tag) [
      | none ↦ lift (err class_file_error)
      | some (fmt, slots) ↦ (do entry ← read_fixed tag fmt; pure (entry, slots))
    ]

-- `while i < count`. Each round adds 1 or 2 to `i`.
pool_loop : ℕ → ℕ → ℕ → List Entry → M (List Entry)
pool_loop zero count i pool = lift (if ltb i count then err out_of_fuel else ok pool)
pool_loop (suc fuel) count i pool = elim (ltb i count) [
  | false ↦ pure pool
  | true ↦ (do
    tag ← u1
    (entry, slots) ← read_constant tag
    pool_loop fuel count (i + slots) (set pool i entry))
]

pub parse_constant_pool : ℕ → M (List Entry)
parse_constant_pool count = pool_loop count count 1 (replicate count blank)
