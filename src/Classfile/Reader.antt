-- ===== src/Classfile/Reader.antt =====
-- The bounds-checked big-endian cursor `_Reader` of graph_core/bytecode/classfile.py, and the
-- state-and-error monad of the functions that read through it. `bytes` is the field `data`.
pub mod RoundTrip
pub mod Halting
use graph_ingest_test.Prelude.{
  ℕ, zero, suc, ◌+◌, ◌*◌, List, [], ◌∷◌, length, take, drop, ltb, if◌then◌else◌,
}
use graph_ingest_test.Prelude.Result.{Result, ok, err, class_file_error, struct_error}

pub record Reader : Type 0 where
  pub bytes : List ℕ
  pub pos : ℕ

abbrev pub M : Type 0 → Type 0
M A = Reader → Result (A × Reader)

infixl 5 ◌>>=◌ ◌>>◌
abbrev pub ◌>>=◌ : {A B : Type 0} → M A → (A → M B) → M B
◌>>=◌ m f r = elim (m r) [ ok (a, r') ↦ f a r' | err e ↦ err e ]

abbrev pub ◌>>◌ : {A B : Type 0} → M A → M B → M B
m >> k = m >>= λ _. k

abbrev pub pure : {A : Type 0} → A → M A
pure a r = ok (a, r)

-- A step that raises or returns without reading.
abbrev pub lift : {A : Type 0} → Result A → M A
lift (ok a) r = ok (a, r)
lift (err e) r = err e

-- struct.unpack(">H", chunk)[0]
abbrev pub unpack_h : List ℕ → Result ℕ
unpack_h (a ∷ b ∷ []) = ok (a * 256 + b)
unpack_h _ = err struct_error

-- struct.unpack(">I", chunk)[0]
abbrev pub unpack_i : List ℕ → Result ℕ
unpack_i (a ∷ b ∷ c ∷ d ∷ []) = ok (a * 0x1000000 + b * 0x10000 + c * 256 + d)
unpack_i _ = err struct_error

-- chunk[0]; `_take(1)` never returns an empty chunk.
abbrev pub first_byte : List ℕ → Result ℕ
first_byte (a ∷ _) = ok a
first_byte [] = err struct_error

-- `n` comes from `u1`, `u2` and `u4` only, so it is never negative.
unfoldable pub take_bytes : ℕ → M (List ℕ)
take_bytes n r =
    let end = r.pos + n in
    if ltb (length r.bytes) end
    then err class_file_error
    else ok (take n (drop r.pos r.bytes), record r { pos = end })

pub u1 : M ℕ
u1 = do chunk ← take_bytes 1; lift (first_byte chunk)

unfoldable pub u2 : M ℕ
u2 = do chunk ← take_bytes 2; lift (unpack_h chunk)

pub u4 : M ℕ
u4 = do chunk ← take_bytes 4; lift (unpack_i chunk)

pub skip : ℕ → M (Unit {0})
skip n r =
    if ltb (length r.bytes) (r.pos + n)
    then err class_file_error
    else ok (tt, record r { pos = r.pos + n })

-- [item() for _ in range(n)]
unfoldable pub repeat : {A : Type 0} → ℕ → M A → M (List A)
repeat zero item = pure []
repeat (suc n) item = do x ← item; rest ← repeat n item; pure (x ∷ rest)

-- A cursor of its own over some bytes, dropped at the end.
unfoldable pub run : {A : Type 0} → M A → List ℕ → Result A
run m body = elim (m (record { bytes = body; pos = 0 })) [ ok (a, r) ↦ ok a | err e ↦ err e ]
