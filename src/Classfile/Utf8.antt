-- ===== src/Classfile/Utf8.antt =====
-- `bytes.decode("utf-8", "replace")` of Python, which graph_core/bytecode/classfile.py calls on
-- each Utf8 constant: an ill-formed sequence becomes U+FFFD, one for each maximal prefix of a
-- well-formed sequence.
use graph_ingest_test.Prelude.{
  ℕ, ◌+◌, ◌-◌, ◌*◌, ◌<◌, ◌≡◌, refl, List, [], ◌∷◌, ◌++◌, ltb, leb, ◌==◌, ◌&&◌, if◌then◌else◌, Text,
  All, arith,
}

-- Between two characters, or with `left` bytes to come, the next one between `lo` and `hi`.
pub data Pending : Type 0 where
  idle : Pending
  more : ℕ → ℕ → ℕ → ℕ → Pending

abbrev pub replacement : ℕ
replacement = 0xfffd

lead : ℕ → Text × Pending
lead b =
    if ltb b 0x80
    then (b ∷ [], idle)
    else if ltb b 0xc2
    then (replacement ∷ [], idle)
    else if ltb b 0xe0
    then ([], more 1 (b - 0xc0) 0x80 0xbf)
    else if ltb b 0xf0
    then (
      [],
      more 2 (b - 0xe0) (if b == 0xe0 then 0xa0 else 0x80) (if b == 0xed then 0x9f else 0xbf),
    )
    else if ltb b 0xf5
    then (
      [],
      more 3 (b - 0xf0) (if b == 0xf0 then 0x90 else 0x80) (if b == 0xf4 then 0x8f else 0xbf),
    )
    else (replacement ∷ [], idle)

decode_step : Pending → ℕ → Text × Pending
unfolding lead
decode_step idle b = lead b
decode_step (more left acc lo hi) b =
    let code = acc * 64 + (b - 0x80) in
    if leb lo b && leb b hi
    then (if left == 1 then (code ∷ [], idle) else ([], more (left - 1) code 0x80 0xbf))
    else (replacement ∷ (lead b).0, (lead b).1)

decode_from : Pending → List ℕ → Text
unfolding decode_step
decode_from idle [] = []
decode_from (more left acc lo hi) [] = replacement ∷ []
decode_from p (b ∷ bs) = let (out, p') = decode_step p b in out ++ decode_from p' bs

unfoldable pub decode : List ℕ → Text
unfolding decode_from
decode bs = decode_from idle bs

-- ASCII bytes are their own code points.
pub decode_ascii : (bs : List ℕ) → All (λ b. b < 0x80) bs → decode bs ≡ bs
unfolding decode
decode_ascii [] h = refl
decode_ascii (b ∷ bs) h = ground (arith, decode_ascii bs h.1)

decode_euro :
    decode (0x41 ∷ 0xe2 ∷ 0x82 ∷ 0xac ∷ 0xc3 ∷ 0x42 ∷ []) ≡ 0x41 ∷ 0x20ac ∷ replacement ∷ 0x42 ∷ []
unfolding decode
decode_euro = refl
