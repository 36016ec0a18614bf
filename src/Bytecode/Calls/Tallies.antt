-- ===== src/Bytecode/Calls/Tallies.antt =====
-- The inventory of unrecognised calls: complete by owner, bounded by method.
use graph_ingest_test.Prelude.{
  ℕ, suc, ◌≤◌, ◌≡◌, refl, ap, ◌∙◌, List, ◌∷◌, ◌++◌, none, true, false, true-false, inl, inr,
  Bool-cases, Option-cases, ltb, if◌then◌else◌, length, Text, text_eq, find, bump, count_of,
  count_of-bump, length-bump-some, length-bump-none, arith,
}
use graph_ingest_test.Catalog.{is_inventory_noise}
use graph_ingest_test.External.{external_key}
use graph_ingest_test.Bytecode.State.{Inventory}
use graph_ingest_test.Bytecode.Calls.{tally_method, tally_unclassified}

-- The keys stay within the cap.
abbrev pub IsCapped : ℕ → Inventory → Type 0
IsCapped limit i = length i.unclassified ≤ limit

tally_method-IsCapped :
    (limit : ℕ) (key : Text) (i : Inventory)
    → IsCapped limit i
    → IsCapped limit (tally_method limit key i)
unfolding tally_method
tally_method-IsCapped limit key i h = elim (Option-cases (find key i.unclassified)) [
  | inr (n, e) ↦ rw (e, tally_method) (omega (arith, length-bump-some key i.unclassified n e))
  | inl e ↦
      rw (e, tally_method)
        (elim (Bool-cases (ltb (length i.unclassified) limit)) [
          | inl room ↦ rw room (ground (arith, length-bump-none key i.unclassified))
          | inr full ↦ rw full h
        ])
]

tally_method-owners :
    (limit : ℕ) (key : Text) (i : Inventory)
    → (tally_method limit key i).unclassified_owners ≡ i.unclassified_owners
unfolding tally_method
tally_method-owners limit key i = elim (Option-cases (find key i.unclassified)) [
  | inr (n, e) ↦ rw (e, tally_method) refl
  | inl e ↦
      rw (e, tally_method)
        (elim (Bool-cases (ltb (length i.unclassified) limit)) [
          | inl room ↦ rw room refl
          | inr full ↦ rw full refl
        ])
]

-- What one more call does to the detail by method: its key counts one more, or the overflow does,
-- which needs a key that is not there and a full table.
pub data Detailed (limit : ℕ) (key : Text) (i j : Inventory) : Type 0 where
  in_key :
      ((k : Text)
        → count_of k j.unclassified
          ≡ (if text_eq key k then suc (count_of k i.unclassified) else count_of k i.unclassified))
      → j.overflow ≡ i.overflow
      → Detailed limit key i j
  in_overflow :
      find key i.unclassified ≡ none
      → limit ≤ length i.unclassified
      → j.unclassified ≡ i.unclassified
      → j.overflow ≡ suc i.overflow
      → Detailed limit key i j

tally_method-Detailed :
    (limit : ℕ) (key : Text) (i : Inventory) → Detailed limit key i (tally_method limit key i)
unfolding tally_method
tally_method-Detailed limit key i = elim (Option-cases (find key i.unclassified)) [
  | inr (n, e) ↦
      rw (e, tally_method) (Detailed.in_key (λ k. count_of-bump k key i.unclassified) refl)
  | inl e ↦
      rw (e, tally_method)
        (elim (Bool-cases (ltb (length i.unclassified) limit)) [
          | inl room ↦ rw room (Detailed.in_key (λ k. count_of-bump k key i.unclassified) refl)
          | inr full ↦ rw full (Detailed.in_overflow e (ground arith) refl refl)
        ])
]

-- One more call of its owner, and of no other; by method it counts once too, under its key or in the
-- overflow, unless the owner is noise; and the keys stay within the cap.
pub record Tallied (limit : ℕ) (owner name : Text) (i j : Inventory) : Type 0 where
  pub owners :
      (k : Text)
      → count_of k j.unclassified_owners ≡ (
          if text_eq owner k
          then suc (count_of k i.unclassified_owners)
          else count_of k i.unclassified_owners)
  pub quiet : is_inventory_noise owner ≡ false → Detailed limit (owner ++ b'#' ∷ name) i j
  pub noise :
      is_inventory_noise owner ≡ true
      → (j.unclassified ≡ i.unclassified) × (j.overflow ≡ i.overflow)
  pub capped : IsCapped limit j

-- An unrecognised call raises the count of its owner by one and that of no other owner. Unless the
-- owner is noise, it raises also the count of its key, owner#name, and of no other key, or, where the
-- table is full and has no such key, the overflow; a call of a noise owner changes neither. The table
-- never holds more keys than the cap.
pub tally_unclassified_lem :
    (limit : ℕ) (owner name : Text) (i : Inventory)
    → IsCapped limit i
    → Tallied limit owner name i (tally_unclassified limit owner name i)
unfolding tally_unclassified external_key
tally_unclassified_lem limit owner name i h = elim (Bool-cases (is_inventory_noise owner)) [
  | inl noise ↦ rw noise (record {
    owners = λ k. count_of-bump k owner i.unclassified_owners;
    quiet = λ q. absurd (true-false noise q);
    noise = λ _. (refl, refl);
    capped = h;
  })
  | inr quiet ↦
      let m = record i { unclassified_owners = bump owner i.unclassified_owners } in
      rw quiet (record {
        owners = λ k.
            ap (count_of k) (tally_method-owners limit (external_key owner name) m)
            ∙ count_of-bump k owner i.unclassified_owners;
        quiet = λ _. moved (tally_method-Detailed limit (external_key owner name) m);
        noise = λ q. absurd (true-false q quiet);
        capped = tally_method-IsCapped limit (external_key owner name) m h;
      })
]
  where
    moved :
        {j : Inventory} {d : List (Text × ℕ)}
        → Detailed limit (external_key owner name) (record i { unclassified_owners = d }) j
        → Detailed limit (owner ++ b'#' ∷ name) i j
    moved (Detailed.in_key f o) = Detailed.in_key f o
    moved (Detailed.in_overflow n l u o) = Detailed.in_overflow n l u o
