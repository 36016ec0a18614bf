-- ===== src/Classfile/Access/Halting.antt =====
-- The accessors of the pool use no fuel (graph_core/bytecode/classfile.py, `_Pool`).
use graph_ingest_test.Prelude.{ℕ, ◌≡◌, refl, true, ◌==◌}
use graph_ingest_test.Prelude.Result.{halts, halts-bind, halts-branch}
use graph_ingest_test.Classfile.Pool.{Entry, blank, utf8_text, numeric, single, pair, method_handle}
use graph_ingest_test.Classfile.Access.{
  Pool, in_range, entry_at, as_text, utf8, class_entry, class_name, name_and_type, is_member_ref,
  member_entry, member_ref, dynamic_entry, invokedynamic_nat,
}

halts-as_text : (e : Entry) → halts (as_text e) ≡ true
halts-as_text blank = refl
halts-as_text (utf8_text t) = refl
halts-as_text (numeric n bs) = refl
halts-as_text (single a b) = refl
halts-as_text (pair a b c) = refl
halts-as_text (method_handle a b) = refl

pub halts-utf8 : (raw : Pool) (index : ℕ) → halts (utf8 raw index) ≡ true
unfolding utf8
halts-utf8 raw index = halts-branch (in_range raw index) _ _ (halts-as_text _) refl

halts-class_entry : (raw : Pool) (e : Entry) → halts (class_entry raw e) ≡ true
unfolding class_entry
halts-class_entry raw (single tag name) =
    halts-branch (tag == 7) _ _ (halts-bind (utf8 raw name) _ (halts-utf8 raw name) (λ t. refl))
      refl
halts-class_entry raw blank = refl
halts-class_entry raw (utf8_text t) = refl
halts-class_entry raw (numeric n bs) = refl
halts-class_entry raw (pair a b c) = refl
halts-class_entry raw (method_handle a b) = refl

pub halts-class_name : (raw : Pool) (index : ℕ) → halts (class_name raw index) ≡ true
unfolding class_name
halts-class_name raw index =
    halts-branch (index == 0) _ _ refl (halts-class_entry raw (entry_at raw index))

halts-name_and_type : (e : Entry) → halts (name_and_type e) ≡ true
unfolding name_and_type
halts-name_and_type (pair tag name desc) = halts-branch (tag == 12) _ _ refl refl
halts-name_and_type blank = refl
halts-name_and_type (utf8_text t) = refl
halts-name_and_type (numeric n bs) = refl
halts-name_and_type (single a b) = refl
halts-name_and_type (method_handle a b) = refl

halts-member_entry : (raw : Pool) (e : Entry) → halts (member_entry raw e) ≡ true
unfolding member_entry
halts-member_entry raw (pair tag class_index nat_index) =
    halts-branch (is_member_ref tag) _ _
      (halts-bind _ _ (halts-name_and_type (entry_at raw nat_index)) (λ x.
        halts-bind _ _ (halts-class_name raw class_index) (λ owner.
          halts-bind _ _ (halts-utf8 raw x.0)
            (λ n. halts-bind _ _ (halts-utf8 raw x.1) (λ d. refl)))))
      refl
halts-member_entry raw blank = refl
halts-member_entry raw (utf8_text t) = refl
halts-member_entry raw (numeric n bs) = refl
halts-member_entry raw (single a b) = refl
halts-member_entry raw (method_handle a b) = refl

pub halts-member_ref : (raw : Pool) (index : ℕ) → halts (member_ref raw index) ≡ true
unfolding member_ref
halts-member_ref raw index = halts-member_entry raw (entry_at raw index)

halts-dynamic_entry : (raw : Pool) (e : Entry) → halts (dynamic_entry raw e) ≡ true
unfolding dynamic_entry
halts-dynamic_entry raw (pair tag bootstrap nat_index) =
    halts-branch (tag == 18) _ _
      (halts-bind _ _ (halts-name_and_type (entry_at raw nat_index)) (λ x.
        halts-bind _ _ (halts-utf8 raw x.0) (λ n. halts-bind _ _ (halts-utf8 raw x.1) (λ d. refl))))
      refl
halts-dynamic_entry raw blank = refl
halts-dynamic_entry raw (utf8_text t) = refl
halts-dynamic_entry raw (numeric n bs) = refl
halts-dynamic_entry raw (single a b) = refl
halts-dynamic_entry raw (method_handle a b) = refl

pub halts-invokedynamic_nat : (raw : Pool) (index : ℕ) → halts (invokedynamic_nat raw index) ≡ true
unfolding invokedynamic_nat
halts-invokedynamic_nat raw index = halts-dynamic_entry raw (entry_at raw index)
