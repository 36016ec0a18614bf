-- ===== src/Prelude/Strings.antt =====
-- Text as the list of its code points, and the operations of Python's `str` that the program uses.
use Prim.Native.Char.{code}
use Prim.Native.String.{String}
use Prim.Native.Nat.{ℕ, ◌+◌}
use mathlib.Core.Path.{◌≡◌, refl}
use mathlib.Core.Logic.{◌↔◌}
use mathlib.Core.Bool.{Bool, true, false, ◌&&◌, ◌||◌, not}
use mathlib.Core.List.{List, [], ◌∷◌, map}
use mathlib.Core.Option.{Option, none, some}
use native.Mathlib.Omega.{arith}
use graph_ingest_test.Prelude.Tests.{◌==◌, ltb, leb, if◌then◌else◌}

abbrev pub Text : Type 0
Text = List ℕ

-- A literal.
abbrev pub codes : String → Text
codes String.[] = []
codes (String.◌∷◌ c s) = code c ∷ codes s

abbrev pub text_eq : Text → Text → Bool
text_eq [] [] = true
text_eq [] (y ∷ ys) = false
text_eq (x ∷ xs) [] = false
text_eq (x ∷ xs) (y ∷ ys) = (x == y) && text_eq xs ys

abbrev pub is_empty : Text → Bool
is_empty [] = true
is_empty (x ∷ xs) = false

-- x in s, for a character.
abbrev pub has_char : ℕ → Text → Bool
has_char c [] = false
has_char c (x ∷ xs) = (x == c) || has_char c xs

-- s.replace(c, d), for characters.
abbrev pub replace_char : ℕ → ℕ → Text → Text
replace_char c d [] = []
replace_char c d (x ∷ xs) = (if x == c then d else x) ∷ replace_char c d xs

-- s.startswith(p)
abbrev pub starts_with : Text → Text → Bool
starts_with [] s = true
starts_with (p ∷ ps) [] = false
starts_with (p ∷ ps) (x ∷ xs) = (p == x) && starts_with ps xs

-- s.rpartition(c): what stands before and behind the last `c`; `none` if there is none.
abbrev rpartition_cons : ℕ → ℕ → Text → Option (Text × Text) → Option (Text × Text)
rpartition_cons c x xs (some (h, t)) = some (x ∷ h, t)
rpartition_cons c x xs none = if x == c then some ([], xs) else none

abbrev pub rpartition : ℕ → Text → Option (Text × Text)
rpartition c [] = none
rpartition c (x ∷ xs) = rpartition_cons c x xs (rpartition c xs)

-- s.rsplit(c, 1)[-1]
abbrev pub rsplit_last : ℕ → Text → Text
rsplit_last c s = elim (rpartition c s) [ none ↦ s | some (h, t) ↦ t ]

-- s.rsplit(c, 1)[0]
abbrev pub rsplit_head : ℕ → Text → Text
rsplit_head c s = elim (rpartition c s) [ none ↦ s | some (h, t) ↦ h ]

-- s.split(c, 1)[0]
abbrev pub split_head : ℕ → Text → Text
split_head c [] = []
split_head c (x ∷ xs) = if x == c then [] else x ∷ split_head c xs

abbrev pub all_digits : Text → Bool
all_digits [] = true
all_digits (x ∷ xs) = leb b'0' x && leb x b'9' && all_digits xs

-- s.isdigit(), for ASCII text.
abbrev pub is_digit : Text → Bool
is_digit s = not (is_empty s) && all_digits s

pub text_eq_iff : (s t : Text) → (text_eq s t ≡ true) ↔ (s ≡ t)
text_eq_iff [] [] = ((λ h. refl), (λ h. refl))
text_eq_iff [] (y ∷ ys) = ((λ h. cc), (λ h. cc))
text_eq_iff (x ∷ xs) [] = ((λ h. cc), (λ h. cc))
text_eq_iff (x ∷ xs) (y ∷ ys) =
    (λ h. ground (arith, text_eq_iff xs ys), λ h. ground (arith, text_eq_iff xs ys))

pub text_eq_refl : (s : Text) → text_eq s s ≡ true
text_eq_refl s = (text_eq_iff s s).1 refl

-- White space of `s.strip()`, for ASCII text.
is_space : ℕ → Bool
is_space c = c == 32 || (leb 9 c && leb c 13) || (leb 28 c && leb c 31)

lstrip : Text → Text
unfolding is_space
lstrip [] = []
lstrip (x ∷ xs) = if is_space x then lstrip xs else x ∷ xs

rstrip_cons : ℕ → Text → Text
unfolding is_space
rstrip_cons x [] = if is_space x then [] else x ∷ []
rstrip_cons x (y ∷ ys) = x ∷ y ∷ ys

rstrip : Text → Text
unfolding rstrip_cons
rstrip [] = []
rstrip (x ∷ xs) = rstrip_cons x (rstrip xs)

-- s.strip()
unfoldable pub strip : Text → Text
unfolding lstrip rstrip
strip s = rstrip (lstrip s)

-- `str.lower` on ASCII letters.
abbrev pub lower : Text → Text
lower s = map (λ c. if leb 65 c && leb c 90 then c + 32 else c) s

-- Python compares texts by their code points.
unfoldable pub text_leb : Text → Text → Bool
text_leb [] t = true
text_leb (x ∷ s) [] = false
text_leb (x ∷ s) (y ∷ t) = if ltb x y then true else if ltb y x then false else text_leb s t

pub text_leb_total : (s t : Text) → text_leb s t ≡ false → text_leb t s ≡ true
unfolding text_leb
text_leb_total [] t h = cc
text_leb_total (x ∷ s) [] h = refl
text_leb_total (x ∷ s) (y ∷ t) h = ground (arith, text_leb_total s t)

pub text_leb_trans :
    (s t u : Text) → text_leb s t ≡ true → text_leb t u ≡ true → text_leb s u ≡ true
unfolding text_leb
text_leb_trans [] t u h k = refl
text_leb_trans (x ∷ s) [] u h k = cc
text_leb_trans (x ∷ s) (y ∷ t) [] h k = cc
text_leb_trans (x ∷ s) (y ∷ t) (z ∷ u) h k = ground (arith, text_leb_trans s t u)

pub text_leb_antisym : (s t : Text) → text_leb s t ≡ true → text_leb t s ≡ true → text_eq s t ≡ true
unfolding text_leb
text_leb_antisym [] [] h k = refl
text_leb_antisym [] (y ∷ t) h k = cc
text_leb_antisym (x ∷ s) [] h k = cc
text_leb_antisym (x ∷ s) (y ∷ t) h k = ground (arith, text_leb_antisym s t)
