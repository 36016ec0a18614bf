-- ===== src/Prelude/Dict.antt =====
-- A Python `dict` with text keys: an association list in the order of insertion, and a `set` of
-- texts: a list with no repetition.
use mathlib.Core.Path.{◌≡◌, refl, ap, ◌∙◌}
use mathlib.Core.Logic.{◌⊎◌, ⊎_elim, inl, inr}
use mathlib.Core.Bool.{Bool, true, false}
use mathlib.Core.Option.{Option, none, some}
use mathlib.Core.List.{List, [], ◌∷◌, ◌++◌, Memᴰ}
use mathlib.Core.List.Memᴰ
use Prim.Native.Nat.{ℕ, suc, ◌+◌}
use native.Mathlib.Omega.{arith}
use graph_ingest_test.Prelude.Tests.{if◌then◌else◌, Bool-cases}
use graph_ingest_test.Prelude.AnyOf.{any_of-Memᴰ}
use graph_ingest_test.Prelude.Lists.{any_of, length}
use graph_ingest_test.Prelude.Strings.{Text, text_eq, text_eq_iff}

module _ {ℓ} {V : Type ℓ} where
  -- d.get(k)
  unfoldable pub find : Text → List (Text × V) → Option V
  find k [] = none
  find k ((j, v) ∷ d) = if text_eq j k then some v else find k d

  -- d[k] = f(d.get(k))
  unfoldable pub update : Text → (Option V → V) → List (Text × V) → List (Text × V)
  update k f [] = (k, f none) ∷ []
  update k f ((j, v) ∷ d) = if text_eq j k then (j, f (some v)) ∷ d else (j, v) ∷ update k f d

  -- d[k] = v
  unfoldable pub put : Text → V → List (Text × V) → List (Text × V)
  put k v d = update k (λ _. v) d

  -- No key occurs twice.
  abbrev pub IsUnique : List (Text × V) → Type ℓ
  IsUnique [] = Unit
  IsUnique ((k, v) ∷ d) = (find k d ≡ none) × IsUnique d

  pub find-update :
      (i k : Text) (f : Option V → V) (d : List (Text × V))
      → find i (update k f d) ≡ (if text_eq k i then some (f (find k d)) else find i d)
  unfolding find update
  find-update i k f [] = refl
  find-update i k f ((j, v) ∷ d) = elim (Bool-cases (text_eq j k)) [
    | inl e ↦ rw (e, (text_eq_iff j k).0 e) (split (text_eq k i) _ _ _)
    | inr n ↦ rw n (elim (Bool-cases (text_eq j i)) [
      | inl e ↦ rw (e, other n e) refl
      | inr m ↦ rw m (find-update i k f d)
    ])
  ]
    where
      split :
          (b : Bool) (w x y : Option V)
          → (if b then w else x) ≡ (if b then w else (if b then y else x))
      split true w x y = refl
      split false w x y = refl

      other : text_eq j k ≡ false → text_eq j i ≡ true → text_eq k i ≡ false
      other n e = elim (Bool-cases (text_eq k i)) [
        | inl q ↦ ground (arith, text_eq_iff j i, text_eq_iff k i, text_eq_iff j k)
        | inr q ↦ q
      ]

  pub update-IsUnique :
      (k : Text) (f : Option V → V) (d : List (Text × V)) → IsUnique d → IsUnique (update k f d)
  unfolding find update
  update-IsUnique k f [] u = (refl, tt)
  update-IsUnique k f ((j, v) ∷ d) u = elim (Bool-cases (text_eq j k)) [
    | inl e ↦ rw e u
    | inr n ↦ rw n (find-update j k f d ∙ rw (flip n) u.0, update-IsUnique k f d u.1)
  ]
    where
      flip : text_eq j k ≡ false → text_eq k j ≡ false
      flip n = elim (Bool-cases (text_eq k j)) [
        | inl q ↦ ground (arith, text_eq_iff k j, text_eq_iff j k)
        | inr q ↦ q
      ]

  pub Memᴰ-find : (k : Text) (d : List (Text × V)) {v : V} → find k d ≡ some v → Memᴰ (k, v) d
  unfolding find
  Memᴰ-find k [] h = cc
  Memᴰ-find k ((j, w) ∷ d) {v} h = elim (Bool-cases (text_eq j k)) [
    | inl e ↦ Memᴰ.head (same ((text_eq_iff j k).0 e) (rw e at h))
    | inr n ↦ Memᴰ.tail (Memᴰ-find k d (rw n at h))
  ]
    where
      same : j ≡ k → some w ≡ some v → ◌≡◌ {A = Text × V} (k, v) (j, w)
      same p q = cc

  pub find_of_Memᴰ :
      (k : Text) (v : V) (d : List (Text × V)) → IsUnique d → Memᴰ (k, v) d → find k d ≡ some v
  unfolding find
  find_of_Memᴰ k v [] u m = absurd (Memᴰ.not-nil m)
  find_of_Memᴰ k v ((j, w) ∷ d) u m =
      ⊎_elim (λ e. ground (arith, text_eq_iff j k, e)) (λ t. later (find_of_Memᴰ k v d u.1 t))
        (Memᴰ.cases_cons m)
    where
      later : find k d ≡ some v → find k ((j, w) ∷ d) ≡ some v
      later h = elim (Bool-cases (text_eq j k)) [
        | inl e ↦ absurd (clash ((text_eq_iff j k).0 e) h)
        | inr n ↦ rw n h
      ]
        where
          clash : j ≡ k → find k d ≡ some v → ⊥
          clash p q = cc (u.0)

-- d[k] = d.get(k, 0) + 1
abbrev next_count : Option ℕ → ℕ
next_count none = 1
next_count (some n) = suc n

unfoldable pub bump : Text → List (Text × ℕ) → List (Text × ℕ)
unfolding update
bump k d = update k next_count d

-- d.get(k, 0)
abbrev or_zero_count : Option ℕ → ℕ
or_zero_count none = 0
or_zero_count (some n) = n

abbrev pub count_of : Text → List (Text × ℕ) → ℕ
count_of k d = or_zero_count (find k d)

-- Only the count of that key grows.
pub count_of-bump :
    (i k : Text) (d : List (Text × ℕ))
    → count_of i (bump k d) ≡ (if text_eq k i then suc (count_of i d) else count_of i d)
unfolding bump
count_of-bump i k d = elim (Bool-cases (text_eq k i)) [
  | inl e ↦ rw (find-update i k next_count d, e) (same ((text_eq_iff k i).0 e))
  | inr n ↦ rw (find-update i k next_count d, n) refl
]
  where
    counted : (o : Option ℕ) → next_count o ≡ suc (or_zero_count o)
    counted none = refl
    counted (some n) = refl

    same : k ≡ i → next_count (find k d) ≡ suc (count_of i d)
    same e = rw e (counted (find i d))

-- sum(d.values())
unfoldable pub total : List (Text × ℕ) → ℕ
total [] = 0
total ((k, n) ∷ d) = n + total d

pub total-bump : (k : Text) (d : List (Text × ℕ)) → total (bump k d) ≡ suc (total d)
unfolding total bump
total-bump k [] = refl
total-bump k ((j, n) ∷ d) = ground (arith, total-bump k d)

-- k in s
abbrev pub has_text : Text → List Text → Bool
has_text k s = any_of (text_eq k) s

-- s.add(k)
unfoldable pub add_text : Text → List Text → List Text
add_text k s = if has_text k s then s else s ++ k ∷ []

pub Memᴰ-of_add_text : (x k : Text) (s : List Text) → Memᴰ x (add_text k s) → Memᴰ x s ⊎ (x ≡ k)
unfolding add_text
Memᴰ-of_add_text x k s m = elim (Bool-cases (has_text k s)) [
  | inl old ↦ inl (rw old at m)
  | inr new ↦ ⊎_elim inl (λ e. inr (Memᴰ.eq_of_singleton e)) (Memᴰ.append_cases s (rw new at m))
]

pub length-bump-some :
    (k : Text) (d : List (Text × ℕ)) (n : ℕ) → find k d ≡ some n → length (bump k d) ≡ length d
unfolding find update bump
length-bump-some k [] n h = cc
length-bump-some k ((j, m) ∷ d) n h = elim (Bool-cases (text_eq j k)) [
  | inl e ↦ rw e refl
  | inr e ↦ rw e (ap suc (length-bump-some k d n (rw e at h)))
]

pub length-bump-none :
    (k : Text) (d : List (Text × ℕ)) → find k d ≡ none → length (bump k d) ≡ suc (length d)
unfolding find update bump
length-bump-none k [] h = refl
length-bump-none k ((j, m) ∷ d) h = elim (Bool-cases (text_eq j k)) [
  | inl e ↦ cc (rw e at h)
  | inr e ↦ rw e (ap suc (length-bump-none k d (rw e at h)))
]

pub Memᴰ-of_has_text : (k : Text) (s : List Text) → has_text k s ≡ true → Memᴰ k s
Memᴰ-of_has_text k s h = let (y, m, p) = any_of-Memᴰ (text_eq k) s h in rw ((text_eq_iff k y).0 p) m
