-- ===== src/Reconciler/Process/Quiet.antt =====
-- Rules for the steps of a run that leave the storage and the counters alone.
use func.Prelude.{
  ◌≡◌, ◌≢◌, refl, ap, subst, ◌∙◌, Bool, true, false, Option, none, some, Result, ok, err, panic,
  if◌then◌else◌, ◌⊎◌, inl, inr,
}
use func.Reconciler.{Deployed, RunError, Run, Exec, pure, raise, gets, lift, check, continue, ◌>>=◌}

-- What the storage holds, and how many changes the run has counted.
pub record SameStore {V S : Type 0} (r r' : Run V S) : Type 0 where
  pub store : r'.store ≡ r.store
  pub creates : r'.creates ≡ r.creates
  pub updates : r'.updates ≡ r.updates
  pub deletes : r'.deletes ≡ r.deletes

module _ {V S : Type 0} where
  pub SameStore-refl : (r : Run V S) → SameStore r r
  SameStore-refl r = record { store = refl; creates = refl; updates = refl; deletes = refl }

  pub SameStore-trans : (a b c : Run V S) → SameStore a b → SameStore b c → SameStore a c
  SameStore-trans a b c p q = record {
    store = q.store ∙ p.store;
    creates = q.creates ∙ p.creates;
    updates = q.updates ∙ p.updates;
    deletes = q.deletes ∙ p.deletes;
  }

pub record Quiet {V E S A : Type 0} (m : Exec V E S A) : Type 0 where
  pub at : (r : Run V S) → SameStore r (m r).1

-- A write to the storage.
abbrev pub Write : Type 0 → Type 0 → Type 0 → Type 0
Write V E S = S → Deployed V → Result E (Unit {0}) × S

-- The counters are the same, and the storage is, unless a write has changed it and failed.
pub record Failed {V E S : Type 0} (write : Write V E S) (r r' : Run V S) : Type 0 where
  pub store :
      (r'.store ≡ r.store)
      ⊎ ((d : Deployed V) × ((write r.store d).0 ≢ ok tt) × (r'.store ≡ (write r.store d).1))
  pub creates : r'.creates ≡ r.creates
  pub updates : r'.updates ≡ r.updates
  pub deletes : r'.deletes ≡ r.deletes

module _ {V E S : Type 0} (write : Write V E S) where
  pub Failed-of_SameStore : (a b : Run V S) → SameStore a b → Failed write a b
  Failed-of_SameStore a b p = record {
    store = inl p.store;
    creates = p.creates;
    updates = p.updates;
    deletes = p.deletes;
  }

  pub Failed-trans : (a b c : Run V S) → SameStore a b → Failed write b c → Failed write a c
  Failed-trans a b c p q = record {
    store = elim q.store [
      | inl same ↦ inl (same ∙ p.store)
      | inr (d, failed, e) ↦ inr (
        d,
        subst (λ s. (write s d).0 ≢ ok tt) p.store failed,
        e ∙ ap (λ s. (write s d).1) p.store,
      )
    ];
    creates = q.creates ∙ p.creates;
    updates = q.updates ∙ p.updates;
    deletes = q.deletes ∙ p.deletes;
  }

-- Only a step that returns a value may have counted a change or made a write that succeeded.
pub record FailsQuietly {V E S A : Type 0} (write : Write V E S) (m : Exec V E S A) : Type 0 where
  pub at : (r : Run V S) → Failed write r (m r).1 ⊎ ((a : A) × ((m r).0 ≡ ok a))

module _ {V E S A : Type 0} where
  pub Quiet-pure : (a : A) → Quiet {V = V} {E = E} {S = S} (pure a)
  Quiet-pure a = record { at = SameStore-refl }

  pub Quiet-raise : (e : RunError E) → Quiet {V = V} {S = S} {A = A} (raise e)
  Quiet-raise e = record { at = SameStore-refl }

  pub Quiet-gets : (f : Run V S → A) → Quiet {E = E} (gets f)
  Quiet-gets f = record { at = SameStore-refl }

  pub Quiet-lift :
      {F : Type 0} (wrap : F → RunError E) (x : Result F A) → Quiet {V = V} {S = S} (lift wrap x)
  Quiet-lift wrap (ok a) = record { at = SameStore-refl }
  Quiet-lift wrap (err e) = record { at = SameStore-refl }
  Quiet-lift wrap panic = record { at = SameStore-refl }

  pub FailsQuietly-of_Quiet :
      (write : Write V E S) (m : Exec V E S A) → Quiet m → FailsQuietly write m
  FailsQuietly-of_Quiet write m q = record {
    at = λ r. inl (Failed-of_SameStore write r (m r).1 (q.at r));
  }

  pub Quiet-if : (b : Bool) (m n : Exec V E S A) → Quiet m → Quiet n → Quiet (if b then m else n)
  Quiet-if true m n p q = p
  Quiet-if false m n p q = q

  pub FailsQuietly-if :
      (write : Write V E S) (b : Bool) (m n : Exec V E S A)
      → FailsQuietly write m
      → FailsQuietly write n
      → FailsQuietly write (if b then m else n)
  FailsQuietly-if write true m n p q = p
  FailsQuietly-if write false m n p q = q

module _ {V E S : Type 0} where
  pub Quiet-check : (wrap : E → RunError E) (o : Option E) → Quiet {V = V} {S = S} (check wrap o)
  Quiet-check wrap none = record { at = SameStore-refl }
  Quiet-check wrap (some e) = record { at = SameStore-refl }

module _ {V E S A B : Type 0} where
  Quiet-continue :
      (x : Result (RunError E) A) (f : A → Exec V E S B) (r : Run V S)
      → ((a : A) → Quiet (f a))
      → SameStore r (continue x f r).1
  Quiet-continue (ok a) f r h = (h a).at r
  Quiet-continue (err e) f r h = SameStore-refl r
  Quiet-continue panic f r h = SameStore-refl r

  pub Quiet-bind :
      (m : Exec V E S A) (f : A → Exec V E S B)
      → Quiet m
      → ((a : A) → Quiet (f a))
      → Quiet (m >>= f)
  Quiet-bind m f q h = record {
    at = λ r.
        SameStore-trans r (m r).1 (continue (m r).0 f (m r).1).1 (q.at r)
          (Quiet-continue (m r).0 f (m r).1 h);
  }

  FailsQuietly-continue :
      (write : Write V E S) (x : Result (RunError E) A) (f : A → Exec V E S B) (r₀ r : Run V S)
      → SameStore r₀ r
      → ((a : A) → FailsQuietly write (f a))
      → Failed write r₀ (continue x f r).1 ⊎ ((b : B) × ((continue x f r).0 ≡ ok b))
  FailsQuietly-continue write (ok a) f r₀ r s h = elim ((h a).at r) [
    | inl q ↦ inl (Failed-trans write r₀ r (f a r).1 s q)
    | inr done ↦ inr done
  ]
  FailsQuietly-continue write (err e) f r₀ r s h = inl (Failed-of_SameStore write r₀ r s)
  FailsQuietly-continue write panic f r₀ r s h = inl (Failed-of_SameStore write r₀ r s)

  pub FailsQuietly-bind :
      (write : Write V E S) (m : Exec V E S A) (f : A → Exec V E S B)
      → Quiet m
      → ((a : A) → FailsQuietly write (f a))
      → FailsQuietly write (m >>= f)
  FailsQuietly-bind write m f q h = record {
    at = λ r. FailsQuietly-continue write (m r).0 f r (m r).1 (q.at r) h;
  }

pub ruleset quiet_rules =
    (Quiet-pure, Quiet-raise, Quiet-gets, Quiet-lift, Quiet-check, Quiet-if, Quiet-bind)
