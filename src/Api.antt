-- ===== src/Api.antt =====
-- api/server_apply.go and api/client.go: applying a configuration, on the server and by the client.
mod Stored
mod Retry
mod Diags
mod Tests
use mathlib.Core.List.{Permᴰ}
use func.Prelude.{
  ℕ, zero, suc, String, ◌≡◌, Bool, true, false, Option, none, some, List, [], ◌∷◌, ◌==◌, Result, ok,
  err, panic, ◌>>=◌, map_result, if◌then◌else◌,
}
use func.TypePath.{CtyType}
use func.Schema.{GoType}
use func.Source.{SourceInfo}
use func.Graph.{Graph, empty}
use func.Decoder.{Value, Diagnostics, Store, has_errors}
use func.Decoder.Inputs.{DecodeLibrary}
use func.Decoder.Config.{ResourceBlock, Decoded, decode_body}

-- ApplyRequest; the configuration is the content of its body.
pub record ApplyRequest (S : Type 0) : Type 0 where
  pub project : String
  pub blocks : List (ResourceBlock S)
  pub config_diagnostics : Diagnostics S

-- SourceRequest, with the upload as the storage gives it.
pub record SourceRequest (U : Type 0) : Type 0 where
  pub key : String
  pub upload : U

-- Error, with its code and what the code puts into it.
pub data ApiError (S : Type 0) : Type 0 where
  project_not_set unavailable : ApiError S
  config_errors : Diagnostics S → ApiError S

-- What the server calls: the registry and the libraries of the decoder, with the memory before and
-- the orders of its loops; the source storage, the graph storage and the reconciler. `T` is the state
-- of all that is stored, `U` an upload, and `some` an error.
pub record Server (S G U E T : Type 0) : Type 0 where
  pub library : DecodeLibrary S G
  pub unknown_val : CtyType → S
  pub type_named : String → Option GoType
  pub cells : Store S
  pub rounds : List (List String)
  pub names : List String
  pub has : T → String → Result E Bool
  -- The order in which the goroutines of missingSource append what is missing: any order
  pub appended : List SourceInfo → List SourceInfo
  pub appended-Perm : (srcs : List SourceInfo) → Permᴰ srcs (appended srcs)
  pub new_upload : SourceInfo → Result E U
  pub put_graph : String → Graph (Value S) → T → Option E × T
  -- `none` for no reconciler
  pub reconcile : Option (String → Graph (Value S) → T → Option E × T)

module _ {S G U E T : Type 0} (server : Server S G U E T) where
  -- The sources for which Has returns false.
  unfoldable pub without_source : T → List SourceInfo → Result E (List SourceInfo)
  without_source t [] = ok []
  without_source t (src ∷ srcs) = server.has t src.key >>= λ there.
      without_source t srcs >>= λ rest. ok (if there then rest else src ∷ rest)

  -- Server.missingSource: every source is looked up.
  unfoldable pub missing_source : T → List SourceInfo → Result E (List SourceInfo)
  missing_source t srcs = without_source t srcs >>= λ missing. ok (server.appended missing)

  -- The request for one upload.
  unfoldable pub source_request : SourceInfo → Result E (SourceRequest U)
  source_request src = server.new_upload src >>= λ u. ok (record { key = src.key; upload = u })

  -- The answer to the result of a call that stores something.
  unfoldable pub answer : Option E × T → Result (ApiError S) (List (SourceRequest U)) × T
  answer (none, t) = (ok [], t)
  answer (some e, t) = (err unavailable, t)

  -- The reconciliation, where there is a reconciler.
  unfoldable pub reconciled :
      String → Graph (Value S) → T → Result (ApiError S) (List (SourceRequest U)) × T
  reconciled project g t = elim server.reconcile [
    | none ↦ (ok [], t)
    | some reconcile ↦ answer (reconcile project g t)
  ]

  -- What follows on storing the graph.
  unfoldable pub after_graph :
      String → Graph (Value S) → Option E × T → Result (ApiError S) (List (SourceRequest U)) × T
  after_graph project g (none, t) = reconciled project g t
  after_graph project g (some e, t) = (err unavailable, t)

  -- Storing the graph, and the rest.
  unfoldable pub stored :
      String → Graph (Value S) → T → Result (ApiError S) (List (SourceRequest U)) × T
  stored project g t = after_graph project g (server.put_graph project g t)

  -- The requests for the sources that are missing.
  unfoldable pub requested :
      Result E (List (SourceRequest U)) → Result (ApiError S) (List (SourceRequest U))
  requested (ok requests) = ok requests
  requested (err e) = err unavailable
  requested panic = panic

  unfoldable pub with_missing :
      String
      → Decoded S
      → T
      → Result E (List SourceInfo)
      → Result (ApiError S) (List (SourceRequest U)) × T
  with_missing project d t (ok []) = stored project d.graph t
  with_missing project d t (ok (src ∷ srcs)) =
      (requested (map_result source_request (src ∷ srcs)), t)
  with_missing project d t (err e) = (err unavailable, t)
  with_missing project d t panic = (panic, t)

  -- Apply, behind the decoding; `none` stands for a decoding that has not ended.
  unfoldable pub decoded :
      String
      → T
      → Option (Result (Diagnostics S) (Decoded S))
      → Option (Result (ApiError S) (List (SourceRequest U)) × T)
  decoded project t none = none
  decoded project t (some panic) = some (panic, t)
  decoded project t (some (err ds)) = some (err (config_errors ds), t)
  decoded project t (some (ok d)) =
      let checked = with_missing project d t (missing_source t d.sources) in
      some (if has_errors d.diagnostics then (err (config_errors d.diagnostics), t) else checked)

  -- The decoding of a request into a new graph.
  abbrev pub decode : ApplyRequest S → Option (Result (Diagnostics S) (Decoded S))
  decode req =
      decode_body server.library server.unknown_val server.type_named server.cells server.rounds
        server.names empty req.blocks req.config_diagnostics

  -- Server.Apply; an empty list of requests stands for a response without required sources.
  unfoldable pub apply :
      ApplyRequest S → T → Option (Result (ApiError S) (List (SourceRequest U)) × T)
  apply req t =
      let rest = decoded req.project t (decode req) in
      if req.project == "" then some (err project_not_set, t) else rest

-- An error of the client: one of the API, or one of an upload.
pub data ClientError (S E : Type 0) : Type 0 where
  api_error : ApiError S → ClientError S E
  upload_error : E → ClientError S E

-- What follows on the upload of sources: the next request, or the error.
unfoldable pub after_upload :
    {S E T : Type 0}
    → (T → Option (Result (ClientError S E) (Unit {0}) × T))
    → Option E × T
    → Option (Result (ClientError S E) (Unit {0}) × T)
after_upload again (none, t) = again t
after_upload again (some e, t) = some (err (upload_error e), t)

module _ {S G U E T : Type 0} (server : Server S G U E T)
    (upload_sources : List (SourceRequest U) → T → Option E × T) where
  -- What follows on a response, with the requests behind it.
  unfoldable pub after_response :
      (T → Option (Result (ClientError S E) (Unit {0}) × T))
      → Option (Result (ApiError S) (List (SourceRequest U)) × T)
      → Option (Result (ClientError S E) (Unit {0}) × T)
  after_response again none = none
  after_response again (some (panic, t)) = some (panic, t)
  after_response again (some (err e, t)) = some (err (api_error e), t)
  after_response again (some (ok [], t)) = some (ok tt, t)
  after_response again (some (ok (r ∷ rs), t)) = after_upload again (upload_sources (r ∷ rs) t)

  -- Client.Apply with a number of requests; `none` stands for a loop that has not ended.
  unfoldable pub client_apply :
      ℕ → ApplyRequest S → T → Option (Result (ClientError S E) (Unit {0}) × T)
  client_apply zero req t = none
  client_apply (suc n) req t = after_response (client_apply n req) (apply server req t)
