-- ===== src/Reconciler/Process/Resolve.antt =====
-- resource/reconciler/reconciler.go: resolveDependencies changes no state of the run.
use func.Prelude.{
  ◌≡◌, refl, ◌∙◌, Bool, true, false, Result, ok, err, panic, List, [], ◌∷◌, String, arith,
  if◌then◌else◌,
}
use func.Graph.{Desired, Dependency, Graph}
use func.Reconciler.{RunError, World, Run, Exec, pure, raise, gets, lift, continue, ◌>>=◌}
use func.Reconciler.Process.{names_of_parents, resolve_fields, resolve_with, resolve_dependencies}

-- The step leaves the run as it is.
pub record Still {V E S A : Type 0} (m : Exec V E S A) : Type 0 where
  pub at : (r : Run V S) → (m r).1 ≡ r

module _ {V E S A : Type 0} where
  Still-pure : (a : A) → Still {V = V} {E = E} {S = S} (pure a)
  Still-pure a = record { at = λ r. refl }

  Still-raise : (e : RunError E) → Still {V = V} {S = S} {A = A} (raise e)
  Still-raise e = record { at = λ r. refl }

  Still-gets : (f : Run V S → A) → Still {E = E} (gets f)
  Still-gets f = record { at = λ r. refl }

  Still-lift :
      {F : Type 0} (wrap : F → RunError E) (x : Result F A) → Still {V = V} {S = S} (lift wrap x)
  Still-lift wrap (ok a) = record { at = λ r. refl }
  Still-lift wrap (err e) = record { at = λ r. refl }
  Still-lift wrap panic = record { at = λ r. refl }

  Still-if : (b : Bool) (m n : Exec V E S A) → Still m → Still n → Still (if b then m else n)
  Still-if true m n p q = p
  Still-if false m n p q = q

module _ {V E S A B : Type 0} where
  Still-continue :
      (x : Result (RunError E) A) (f : A → Exec V E S B) (r : Run V S)
      → ((a : A) → Still (f a))
      → (continue x f r).1 ≡ r
  Still-continue (ok a) f r h = (h a).at r
  Still-continue (err e) f r h = refl
  Still-continue panic f r h = refl

  Still-bind :
      (m : Exec V E S A) (f : A → Exec V E S B)
      → Still m
      → ((a : A) → Still (f a))
      → Still (m >>= f)
  Still-bind m f q h = record { at = λ r. Still-continue (m r).0 f (m r).1 h ∙ q.at r }

module _ {V E S : Type 0} where
  names_of_parents-Still :
      (g : Graph V) (name : String) → Still (names_of_parents {E = E} {S = S} g name)
  unfolding names_of_parents
  names_of_parents-Still g name = record { at = λ r. ground arith }

ruleset still_rules =
    (Still-pure, Still-raise, Still-gets, Still-lift, Still-if, Still-bind, names_of_parents-Still)

module _ {V D E S : Type 0} (w : World V D E S) where
  resolve_fields-Still :
      (vars : List (String × V)) (ds : List (Dependency V)) (input : V)
      → Still (resolve_fields w vars ds input)
  unfolding resolve_fields
  resolve_fields-Still vars [] input = search still_rules
  resolve_fields-Still vars (d ∷ ds) input = search (still_rules, resolve_fields-Still vars ds)

  resolve_with-Still :
      (g : Graph V) (res : Desired V) (parents : List String) → Still (resolve_with w g res parents)
  unfolding resolve_with
  resolve_with-Still g res [] = search still_rules
  resolve_with-Still g res (p ∷ ps) = search (still_rules, resolve_fields-Still)

  pub resolve_dependencies-Still :
      (g : Graph V) (res : Desired V) → Still (resolve_dependencies w g res)
  unfolding resolve_dependencies
  resolve_dependencies-Still g res = search (still_rules, resolve_with-Still)
