-- ===== src/Api/Stored.antt =====
-- api/server_apply.go: what is stored, and when.
use mathlib.Core.List.{Permᴰ}
use func.Prelude.{
  ◌≡◌, ◌≢◌, refl, sym, subst, true, false, some, List, [], ◌∷◌, Result, ok, All, ◌==◌,
}
use func.Graph.Validity.{IsValid}
use func.Decoder.{has_errors}
use func.Decoder.Config.{Decoded}
use func.Api.{ApplyRequest, SourceRequest, ApiError, Server, stored, decode}

pub some_injective : {A : Type 0} {a b : A} → some a ≡ some b → a ≡ b
some_injective h = cc

-- What is true of all of a list is true of all of the list in another order.
pub All-Perm : {A : Type 0} (P : A → Type 0) (xs ys : List A) → Permᴰ xs ys → All P ys → All P xs
All-Perm P [] [] Permᴰ.nil h = h
All-Perm P (x ∷ xs) (y ∷ ys) (Permᴰ.cons e p) (h, hs) = (subst P (sym e) h, All-Perm P xs ys p hs)
All-Perm P (a ∷ b ∷ xs) (c ∷ d ∷ ys) (Permᴰ.swap e f) (h, (k, hs)) =
    (subst P (sym e) k, (subst P (sym f) h, hs))
All-Perm P xs zs (Permᴰ.trans {l₂ = ys} p q) h = All-Perm P xs ys p (All-Perm P ys zs q h)

pub nil_of_Perm : {A : Type 0} (xs : List A) → Permᴰ xs [] → xs ≡ []
nil_of_Perm xs p = go xs (All-Perm (λ x. ⊥) xs [] p tt)
  where
    go : {A : Type 0} (xs : List A) → All (λ x. ⊥) xs → xs ≡ []
    go [] h = refl
    go (x ∷ xs) h = absurd h.0

module _ {S G U E T : Type 0} (server : Server S G U E T) where
  abbrev pub Response : Type 0
  Response = Result (ApiError S) (List (SourceRequest U))

  -- The configuration was decoded without an error, all its sources are there, its graph is valid, and
  -- what is stored is that graph.
  pub record Accepted (req : ApplyRequest S) (t : T) (r : Response) (t' : T) : Type 0 where
    pub result : Decoded S
    pub named : (req.project == "") ≡ false
    pub decodes : decode server req ≡ some (ok result)
    pub without_errors : has_errors result.diagnostics ≡ false
    pub present : All (λ src. server.has t src.key ≡ ok true) result.sources
    pub is_valid : IsValid result.graph
    pub stores : stored server req.project result.graph t ≡ (r, t')

  -- The server has not changed what is stored, and has not answered that the request is done.
  abbrev pub Refused : T → Response → T → Type 0
  Refused t r t' = (t' ≡ t) × (r ≢ ok [])
