-- ===== src/Api/Retry.antt =====
-- api/client.go: the client uploads what is missing, and needs no third request.
use mathlib.Core.List.Permᴰ
use mathlib.Core.List.{Permᴰ}
use func.Prelude.{
  String, ◌≡◌, refl, sym, ap, subst, ◌⊎◌, inl, inr, Bool, true, false, Bool-cases, Option, none,
  some, List, [], ◌∷◌, Result, ok, err, panic, ◌>>=◌, >>=-eq-ok, map_result, All, ◌==◌,
  if◌then◌else◌,
}
use func.Source.{SourceInfo}
use func.Graph.{Graph}
use func.Decoder.{Value, Diagnostics, has_errors}
use func.Decoder.Config.{Decoded}
use func.Api.{
  ApplyRequest, SourceRequest, ClientError, upload_error, api_error, Server, without_source,
  missing_source, answer, after_graph, source_request, reconciled, stored, requested, with_missing,
  decoded, decode, apply, after_upload, after_response, client_apply, unavailable, project_not_set,
  project_not_set,
}
use func.Api.Stored.{Response, some_injective, All-Perm, nil_of_Perm}

module _ {S G U E T : Type 0} (server : Server S G U E T) where
  -- Every source that was there is there, and those of the list are.
  abbrev pub Uploaded : List (SourceRequest U) → T → T → Type 0
  Uploaded requests t t' =
      All (λ r. server.has t' r.key ≡ ok true) requests
      × ((key : String) → server.has t key ≡ ok true → server.has t' key ≡ ok true)

  requests-keys :
      (t : T) (srcs : List SourceInfo) (requests : List (SourceRequest U))
      → map_result (source_request server) srcs ≡ ok requests
      → All (λ r. server.has t r.key ≡ ok true) requests
      → All (λ src. server.has t src.key ≡ ok true) srcs
  unfolding source_request
  requests-keys t [] requests h all = tt
  requests-keys t (src ∷ srcs) requests h all =
      let (r, first, h₁) = >>=-eq-ok (source_request server src) _ h in
      let (rs, rest, h₂) = >>=-eq-ok (map_result (source_request server) srcs) _ h₁ in
      let (u, made, h₃) = >>=-eq-ok (server.new_upload src) _ first in
      let e : r ∷ rs ≡ requests = cc in
      let both = subst (All (λ r. server.has t r.key ≡ ok true)) (sym e) all in
      let same : src.key ≡ r.key = cc in
      (subst (λ k. server.has t k ≡ ok true) (sym same) both.0, requests-keys t srcs rs rest both.1)

  -- After the missing sources have been uploaded none is missing.
  without_source-uploaded :
      (t t' : T) (srcs missing : List SourceInfo)
      → without_source server t srcs ≡ ok missing
      → All (λ src. server.has t' src.key ≡ ok true) missing
      → ((key : String) → server.has t key ≡ ok true → server.has t' key ≡ ok true)
      → without_source server t' srcs ≡ ok []
  unfolding without_source
  without_source-uploaded t t' [] missing h all kept = refl
  without_source-uploaded t t' (src ∷ srcs) missing h all kept =
      let (there, has, h₁) = >>=-eq-ok (server.has t src.key) _ h in
      let (rest, others, h₂) = >>=-eq-ok (without_source server t srcs) _ h₁ in
      let left : (if there then rest else src ∷ rest) ≡ missing = cc in
      go rest there has left (λ all. without_source-uploaded t t' srcs rest others all kept)
    where
      go :
          (rest : List SourceInfo) (there : Bool)
          → server.has t src.key ≡ ok there
          → (if there then rest else src ∷ rest) ≡ missing
          → (All (λ src. server.has t' src.key ≡ ok true) rest
              → without_source server t' srcs ≡ ok [])
          → (server.has t' src.key >>= λ there.
              without_source server t' srcs >>= λ rest. ok (if there then rest else src ∷ rest))
            ≡ ok []
      go rest true has left recur =
          let now = kept src.key has in
          let others =
            recur (subst (All (λ src. server.has t' src.key ≡ ok true)) (sym left) all) in
          rw (now, others) refl
      go rest false has left recur =
          let both = subst (All (λ src. server.has t' src.key ≡ ok true)) (sym left) all in
          let others = recur both.1 in rw (both.0, others) refl

  -- What has happened when the server asks for sources.
  record Asked (req : ApplyRequest S) (t : T) (requests : List (SourceRequest U)) (t' : T)
      : Type 0 where
    result : Decoded S
    missing : List SourceInfo
    same : t' ≡ t
    named : (req.project == "") ≡ false
    decodes : decode server req ≡ some (ok result)
    without_errors : has_errors result.diagnostics ≡ false
    misses : missing_source server t result.sources ≡ ok missing
    asks : map_result (source_request server) missing ≡ ok requests

  -- Storing never asks for sources: it ends with an empty list, or it fails.
  abbrev IsFinal : Response server × T → Type 0
  IsFinal x = (x.0 ≡ ok []) ⊎ (x.0 ≡ err unavailable)

  answer-IsFinal : (x : Option E × T) → IsFinal (answer server x)
  unfolding answer
  answer-IsFinal (none, t) = inl refl
  answer-IsFinal (some e, t) = inr refl

  reconciled-IsFinal :
      (project : String) (g : Graph (Value S)) (t : T) → IsFinal (reconciled server project g t)
  unfolding reconciled
  reconciled-IsFinal project g t = go server.reconcile
    where
      go :
          (o : Option (String → Graph (Value S) → T → Option E × T))
          → IsFinal (elim o as (λ _. Response server × T) [
            | none ↦ (ok [], t)
            | some reconcile ↦ answer server (reconcile project g t)
          ])
      go none = inl refl
      go (some reconcile) = answer-IsFinal (reconcile project g t)

  stored-IsFinal :
      (project : String) (g : Graph (Value S)) (t : T) → IsFinal (stored server project g t)
  unfolding stored after_graph
  stored-IsFinal project g t = go (server.put_graph project g t)
    where
      go : (x : Option E × T) → IsFinal (after_graph server project g x)
      go (none, t') = reconciled-IsFinal project g t'
      go (some e, t') = inr refl

  -- An answer that asks for sources, in its parts.
  with_missing-Asked :
      (req : ApplyRequest S) (t : T) (d : Decoded S)
      → (req.project == "") ≡ false
      → decode server req ≡ some (ok d)
      → has_errors d.diagnostics ≡ false
      → (m : Result E (List SourceInfo)) → missing_source server t d.sources ≡ m
      → (r : SourceRequest U) (rs : List (SourceRequest U)) (t' : T)
      → with_missing server req.project d t m ≡ (ok (r ∷ rs), t')
      → Asked req t (r ∷ rs) t'
  unfolding with_missing requested
  with_missing-Asked req t d named decodes fine (ok []) e r rs t' h =
      let answered = ap (λ x. x.0) h in
      elim (stored-IsFinal req.project d.graph t) [ inl done ↦ cc | inr failed ↦ cc ]
  with_missing-Asked req t d named decodes fine (ok (src ∷ srcs)) e r rs t' h = record {
    result = d;
    missing = src ∷ srcs;
    same = sym (ap (λ x. x.1) h);
    named = named;
    decodes = decodes;
    without_errors = fine;
    misses = e;
    asks = go (map_result (source_request server) (src ∷ srcs)) (ap (λ x. x.0) h);
  }
    where
      go :
          (m : Result E (List (SourceRequest U)))
          → requested server m ≡ ok (r ∷ rs)
          → m ≡ ok (r ∷ rs)
      go (ok x) h = cc
      go (err x) h = cc
      go panic h = cc
  with_missing-Asked req t d named decodes fine (err x) e r rs t' h =
      let impossible = ap (λ x. x.0) h in cc
  with_missing-Asked req t d named decodes fine panic e r rs t' h =
      let impossible = ap (λ x. x.0) h in cc

  apply-Asked :
      (req : ApplyRequest S) (t : T) (r : SourceRequest U) (rs : List (SourceRequest U)) (t' : T)
      → apply server req t ≡ some (ok (r ∷ rs), t')
      → Asked req t (r ∷ rs) t'
  unfolding apply decoded
  apply-Asked req t r rs t' h = elim (Bool-cases (req.project == "")) [
    | inl unnamed ↦ cc (rw unnamed at h)
    | inr named ↦ go (decode server req) refl named (rw named at h)
  ]
    where
      go :
          (o : Option (Result (Diagnostics S) (Decoded S)))
          → decode server req ≡ o
          → (req.project == "") ≡ false
          → decoded server req.project t o ≡ some (ok (r ∷ rs), t')
          → Asked req t (r ∷ rs) t'
      go none e named h' = cc
      go (some panic) e named h' = cc
      go (some (err ds)) e named h' = cc
      go (some (ok d)) e named h' = elim (Bool-cases (has_errors d.diagnostics)) [
        | inl failed ↦ cc (rw failed at h')
        | inr fine ↦
            with_missing-Asked req t d named e fine (missing_source server t d.sources) refl r rs t'
              (some_injective (rw fine at h'))
      ]

  -- The next answer, behind a successful upload, is final.
  apply-again :
      (req : ApplyRequest S) (t t' u : T) (requests : List (SourceRequest U))
      → Asked req t requests t'
      → Uploaded requests t' u
      → (x : Response server × T) × (apply server req u ≡ some x) × IsFinal x
  unfolding apply decoded with_missing missing_source
  apply-again req t t' u requests asked (present, kept) =
      let (missing, looked_up, h₁) =
        >>=-eq-ok (without_source server t asked.result.sources) _ asked.misses in
      let appended : server.appended missing ≡ asked.missing = cc in
      let uploaded =
        All-Perm (λ src. server.has u src.key ≡ ok true) missing asked.missing
          (subst (Permᴰ missing) appended (server.appended-Perm missing))
          (requests-keys u asked.missing requests asked.asks present) in
      let none_missing =
        without_source-uploaded t u asked.result.sources missing looked_up uploaded
          (λ k h. kept k (subst (λ s. server.has s k ≡ ok true) (sym asked.same) h)) in
      let none_left : server.appended [] ≡ [] =
        nil_of_Perm (server.appended []) (Permᴰ.symm (server.appended-Perm [])) in
      (
        stored server req.project asked.result.graph u,
        rw (asked.named, asked.decodes)
            (rw (asked.without_errors, none_missing) (rw none_left refl)),
        stored-IsFinal req.project asked.result.graph u,
      )

module _ {S G U E T : Type 0} (server : Server S G U E T)
    (upload_sources : List (SourceRequest U) → T → Option E × T) where
  final-ends :
      (again : T → Option (Result (ClientError S E) (Unit {0}) × T)) (x : Response server × T)
      → IsFinal server x
      → (result : Result (ClientError S E) (Unit {0}) × T) × (after_response server upload_sources
            again
            (some x)
          ≡ some result)
  unfolding after_response
  final-ends again (panic, t) final = ((panic, t), refl)
  final-ends again (err e, t) final = ((err (api_error e), t), refl)
  final-ends again (ok [], t) final = ((ok tt, t), refl)
  final-ends again (ok (r ∷ rs), t) (inl done) = cc
  final-ends again (ok (r ∷ rs), t) (inr failed) = cc

  apply-answers :
      (req : ApplyRequest S) (t : T) (o : Result (Diagnostics S) (Decoded S))
      → decode server req ≡ some o
      → (x : Response server × T) × (apply server req t ≡ some x)
  unfolding apply decoded
  apply-answers req t o e = elim (Bool-cases (req.project == "")) [
    | inl unnamed ↦ ((err project_not_set, t), rw unnamed refl)
    | inr named ↦ let (x, h) = go o in (x, rw (named, e) h)
  ]
    where
      go :
          (o : Result (Diagnostics S) (Decoded S))
          → (x : Response server × T) × (decoded server req.project t (some o) ≡ some x)
      go panic = (_, refl)
      go (err ds) = (_, refl)
      go (ok d) = (_, refl)

  -- Let the decoding of the configuration end, and let an upload that succeeds leave every source in
  -- the storage that was there or was asked for. Then the loop of the client ends after two requests at
  -- most, whatever the server answers.
  pub client_apply-ends :
      (req : ApplyRequest S) (t : T)
      → (o : Result (Diagnostics S) (Decoded S)) → decode server req ≡ some o
      → ((requests : List (SourceRequest U)) (t u : T)
          → upload_sources requests t ≡ (none, u)
          → Uploaded server requests t u)
      → (result : Result (ClientError S E) (Unit {0}) × T) × (client_apply server upload_sources 2
            req t
          ≡ some result)
  unfolding client_apply after_response after_upload
  client_apply-ends req t o decoded_once uploads =
      let (x, answered) = apply-answers req t o decoded_once in rw answered (go x answered)
    where
      again : T → Option (Result (ClientError S E) (Unit {0}) × T)
      again u = after_response server upload_sources (λ v. none) (apply server req u)

      second :
          (requests : List (SourceRequest U)) (t' : T) (y : Option E × T)
          → Asked server req t requests t'
          → upload_sources requests t' ≡ y
          → (result : Result (ClientError S E) (Unit {0}) × T) × (after_upload again y
              ≡ some result)
      second requests t' (some e, u) asked h = ((err (upload_error e), u), refl)
      second requests t' (none, u) asked h =
          let (x, answered, final) =
            apply-again server req t t' u requests asked (uploads requests t' u h) in
          rw answered (final-ends (λ v. none) x final)

      go :
          (x : Response server × T)
          → apply server req t ≡ some x
          → (result : Result (ClientError S E) (Unit {0}) × T) × (after_response server
                upload_sources again
                (some x)
              ≡ some result)
      go (panic, t') e = ((panic, t'), refl)
      go (err x, t') e = ((err (api_error x), t'), refl)
      go (ok [], t') e = ((ok tt, t'), refl)
      go (ok (r ∷ rs), t') e =
          second (r ∷ rs) t' (upload_sources (r ∷ rs) t') (apply-Asked server req t r rs t' e) refl
