-- ===== src/Bytecode/Overrides/Claimed.antt =====
-- A method in `authoritative_override_methods` has its whole answer among the edges.
use mathlib.Core.List.{Memᴰ}
use mathlib.Core.List.Memᴰ
use mathlib.Core.Logic.{⊎_elim}
use graph_ingest_test.Prelude.{
  ◌≡◌, ◌∙◌, refl, List, [], ◌∷◌, Bool, true, false, not, ◌||◌, ◌⊎◌, inl, inr, Bool-cases, any_of,
  Memᴰ-any_of, Text, text_eq, is_empty, Memᴰ-of_add_text, arith,
}
use graph_ingest_test.Prelude.Result.{ok, ok_eq, ◌>>=◌}
use graph_ingest_test.Classfile.Shapes.{MethodInfo}
use graph_ingest_test.Matcher.Lookup.{override_target}
use graph_ingest_test.Bytecode.State.{EdgeKey, overrides, Header, Declared, Setting, Output}
use graph_ingest_test.Bytecode.State.Emitting.{Holds, Holds-emit, Holds-emit_self}
use graph_ingest_test.Bytecode.Overrides.{
  Walk, is_gap, Progress, override_edge, emit_override, override_step, override_chain, claim,
  override_methods, count_truncated, override_classes,
}
use graph_ingest_test.Bytecode.Overrides.Ancestors.{Ancestor, Finds, ancestors_lem}

abbrev pub override_key : Text → Text → EdgeKey
override_key method_id target = record { kind = overrides; src = method_id; dst = target }

abbrev pub outputs : Progress → Output
outputs g = g.0.output

abbrev Keeps : Progress → Progress → Type 0
Keeps g g' = (k : EdgeKey) → Holds k (outputs g) → Holds k (outputs g')

module _ (s : Setting) where
  -- The edge that an ancestor asks for, if it has a method to override, has been emitted.
  abbrev pub Answers : Declared → Text → Output → Type 0
  Answers (m, method_id) a o =
      is_empty (override_target s.index a m.name m.descriptor) ≡ false
      → text_eq (override_target s.index a m.name m.descriptor) method_id ≡ false
      → Holds (override_key method_id (override_target s.index a m.name m.descriptor)) o

  override_step-Keeps : (d : Declared) (a : Text) (g : Progress) → Keeps g (override_step s d a g)
  unfolding override_step emit_override
  override_step-Keeps (m, method_id) a (p, k) key h =
      elim (Bool-cases (
        is_empty (override_target s.index a m.name m.descriptor)
        || text_eq (override_target s.index a m.name m.descriptor) method_id)) [
          | inl e ↦ rw e h
          | inr e ↦ rw e (
              Holds-emit key
                (override_edge s m method_id (override_target s.index a m.name m.descriptor))
                p.output h)
        ]

  override_step-Answers :
      (d : Declared) (a : Text) (g : Progress) → Answers d a (outputs (override_step s d a g))
  unfolding override_step emit_override
  override_step-Answers (m, method_id) a (p, k) n q =
      rw (n, q)
        (Holds-emit_self
          (override_edge s m method_id (override_target s.index a m.name m.descriptor)) p.output)

  override_chain-Keeps :
      (d : Declared) (chain : List Text) (g : Progress) → Keeps g (override_chain s d chain g)
  unfolding override_chain
  override_chain-Keeps d [] g key h = h
  override_chain-Keeps d (a ∷ chain) g key h =
      override_chain-Keeps d chain (override_step s d a g) key (override_step-Keeps d a g key h)

  override_chain-Answers :
      (d : Declared) (chain : List Text) (g : Progress) (a : Text)
      → Memᴰ a chain
      → Answers d a (outputs (override_chain s d chain g))
  unfolding override_chain
  override_chain-Answers d [] g a m n q = absurd (Memᴰ.not-nil m)
  override_chain-Answers d (b ∷ chain) g a m n q =
      ⊎_elim (λ e. override_chain-Keeps d chain (override_step s d b g) _ (here e))
        (λ t. override_chain-Answers d chain (override_step s d b g) a t n q) (Memᴰ.cases_cons m)
    where
      here :
          a ≡ b
          → Holds
              (override_key d.1 (override_target s.index a d.0.name d.0.descriptor))
              (outputs (override_step s d b g))
      here e = rw (← e) (override_step-Answers d a g n q)

  override_step-claims :
      (d : Declared) (a : Text) (g : Progress)
      → (override_step s d a g).1.authoritative ≡ g.1.authoritative
  unfolding override_step emit_override
  override_step-claims (m, method_id) a (p, k) = ground arith

  override_chain-claims :
      (d : Declared) (chain : List Text) (g : Progress)
      → (override_chain s d chain g).1.authoritative ≡ g.1.authoritative
  unfolding override_chain
  override_chain-claims d [] g = refl
  override_chain-claims d (a ∷ chain) g =
      override_chain-claims d chain (override_step s d a g) ∙ override_step-claims d a g

  override_methods-Keeps :
      (w : Walk) (ds : List Declared) (g : Progress) → Keeps g (override_methods s w ds g)
  unfolding override_methods claim
  override_methods-Keeps w [] g key h = h
  override_methods-Keeps w ((m, method_id) ∷ ds) g key h =
      override_methods-Keeps w ds
        (claim s w.complete method_id (override_chain s (m, method_id) w.chain g)) key
        (override_chain-Keeps (m, method_id) w.chain g key h)

  -- A method that the class declares, with its answer for each name on the chain.
  record Settled (w : Walk) (ds : List Declared) (o : Output) (method_id : Text) : Type 0 where
    method : MethodInfo
    declared : Memᴰ {A = Declared} (method, method_id) ds
    complete : w.complete ≡ true
    answers : (a : Text) → Memᴰ a w.chain → Answers (method, method_id) a o

  Settled-tail :
      (w : Walk) (d : Declared) (ds : List Declared) (o : Output) (i : Text)
      → Settled w ds o i
      → Settled w (d ∷ ds) o i
  Settled-tail w d ds o i h = record {
    method = h.method;
    declared = Memᴰ.tail h.declared;
    complete = h.complete;
    answers = h.answers;
  }

  claimed :
      (complete : Bool) (method_id : Text) (g : Progress) (i : Text)
      → Memᴰ i (claim s complete method_id g).1.authoritative
      → Memᴰ i g.1.authoritative ⊎ (i ≡ method_id) × (complete ≡ true)
  unfolding claim
  claimed true method_id (p, k) i m =
      ⊎_elim inl (λ e. inr (e, refl)) (Memᴰ-of_add_text i method_id k.authoritative m)
  claimed false method_id (p, k) i m = inl m

  override_methods-Settled :
      (w : Walk) (ds : List Declared) (g : Progress) (i : Text)
      → Memᴰ i (override_methods s w ds g).1.authoritative
      → Memᴰ i g.1.authoritative ⊎ Settled w ds (outputs (override_methods s w ds g)) i
  unfolding override_methods
  override_methods-Settled w [] g i m = inl m
  override_methods-Settled w ((m, method_id) ∷ ds) g i at =
      let chained = override_chain s (m, method_id) w.chain g in
      let next = claim s w.complete method_id chained in
      ⊎_elim
        (λ before.
          ⊎_elim (λ old. inl (rw (override_chain-claims (m, method_id) w.chain g) at old))
            (λ new. inr (fresh new.0 new.1)) (claimed w.complete method_id chained i before))
        (λ later. inr (Settled-tail w (m, method_id) ds _ i later))
        (override_methods-Settled w ds next i at)
    where
      fresh :
          i ≡ method_id
          → w.complete ≡ true
          → Settled w
              ((m, method_id) ∷ ds)
              (outputs (
                override_methods s w ds
                  (claim s w.complete method_id (override_chain s (m, method_id) w.chain g))))
              i
      fresh e c = rw e (record {
        method = m;
        declared = Memᴰ.head refl;
        complete = c;
        answers = λ a on n q.
            override_methods-Keeps w ds _ _
              (unfold claim in override_chain-Answers (m, method_id) w.chain g a on n q);
      })

-- Why a method is authoritative: a class declares it, every ancestor of the class was parsed or is
-- outside the repository, and each ancestor with a method to override has its edge.
pub record Justified (s : Setting) (hierarchy : List (Text × Header))
    (classes : List (Text × List Declared)) (o : Output) (method_id : Text) : Type 0 where
  pub binary : Text
  pub declarations : List Declared
  pub method : MethodInfo
  pub listed : Memᴰ (binary, declarations) classes
  pub declared : Memᴰ {A = Declared} (method, method_id) declarations
  pub no_gap : (a : Text) → Ancestor hierarchy binary a → is_gap s.index hierarchy a ≡ false
  pub answers : (a : Text) → Ancestor hierarchy binary a → Answers s (method, method_id) a o

module _ (s : Setting) (hierarchy : List (Text × Header)) where
  Justified-tail :
      (c : Text × List Declared) (classes : List (Text × List Declared)) (o : Output) (i : Text)
      → Justified s hierarchy classes o i
      → Justified s hierarchy (c ∷ classes) o i
  Justified-tail c classes o i h = record {
    binary = h.binary;
    declarations = h.declarations;
    method = h.method;
    listed = Memᴰ.tail h.listed;
    declared = h.declared;
    no_gap = h.no_gap;
    answers = h.answers;
  }

  no_gaps :
      (w : Walk) (a : Text)
      → w.complete ≡ not (any_of (is_gap s.index hierarchy) w.chain)
      → w.complete ≡ true
      → Memᴰ a w.chain
      → is_gap s.index hierarchy a ≡ false
  no_gaps w a g c m = elim (Bool-cases (is_gap s.index hierarchy a)) [
    | inl e ↦ cc (Memᴰ-any_of (is_gap s.index hierarchy) w.chain a m e)
    | inr e ↦ e
  ]

  count_truncated-same :
      (w : Walk) (g : Progress)
      → ((count_truncated s w g).0.output ≡ g.0.output) × ((count_truncated s w g).1 ≡ g.1)
  unfolding count_truncated
  count_truncated-same w (p, k) = ground arith

  override_classes-Keeps :
      (classes : List (Text × List Declared)) (g g' : Progress)
      → override_classes s hierarchy classes g ≡ ok g'
      → Keeps g g'
  unfolding override_classes
  override_classes-Keeps [] g g' e key h = rw (ok_eq e) at h
  override_classes-Keeps ((binary, ds) ∷ classes) g g' e key h =
      let (w, walked, found) = ancestors_lem s.index hierarchy binary in
      override_classes-Keeps classes (count_truncated s w (override_methods s w ds g)) g'
        (rw (walked, ◌>>=◌) at e) key
        (rw ((count_truncated-same w (override_methods s w ds g)).0)
          (override_methods-Keeps s w ds g key h))

  Settled-Justified :
      (binary : Text) (ds : List Declared) (classes : List (Text × List Declared)) (w : Walk)
      (o o' : Output) (i : Text)
      → Finds s.index hierarchy binary w
      → ((k : EdgeKey) → Holds k o → Holds k o')
      → Settled s w ds o i
      → Justified s hierarchy ((binary, ds) ∷ classes) o' i
  Settled-Justified binary ds classes w o o' i found keeps h = record {
    binary = binary;
    declarations = ds;
    method = h.method;
    listed = Memᴰ.head refl;
    declared = h.declared;
    no_gap = λ a up. no_gaps w a found.gaps h.complete (found.full a up);
    answers = λ a up n q. keeps _ (h.answers a (found.full a up) n q);
  }

  -- After the loop over the classes, a method is authoritative only if it was before, or some class
  -- declares it whose ancestors are all known and answered by an edge wherever one is due.
  pub override_classes-Justified :
      (classes : List (Text × List Declared)) (g g' : Progress) (i : Text)
      → override_classes s hierarchy classes g ≡ ok g'
      → Memᴰ i g'.1.authoritative
      → Memᴰ i g.1.authoritative ⊎ Justified s hierarchy classes (outputs g') i
  unfolding override_classes
  override_classes-Justified [] g g' i e m = inl (rw (← ok_eq e) at m)
  override_classes-Justified ((binary, ds) ∷ classes) g g' i e m =
      let (w, walked, found) = ancestors_lem s.index hierarchy binary in
      let counted = count_truncated s w (override_methods s w ds g) in
      let rest : override_classes s hierarchy classes counted ≡ ok g' = (rw (walked, ◌>>=◌) at e) in
      let same = count_truncated-same w (override_methods s w ds g) in
      ⊎_elim
        (λ before.
          ⊎_elim inl
            (λ h. inr (
              Settled-Justified binary ds classes w _ _ i found
                (λ k held. override_classes-Keeps classes counted g' rest k (rw (same.0) held)) h))
            (override_methods-Settled s w ds g i (rw (same.1) at before)))
        (λ later. inr (Justified-tail (binary, ds) classes (outputs g') i later))
        (override_classes-Justified classes counted g' i rest m)
