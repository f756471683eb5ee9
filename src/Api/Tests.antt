-- ===== src/Api/Tests.antt =====
-- api/server_apply.go and api/client.go: the theorems at a server without sources.
use mathlib.Core.List.Permᴰ
use func.Prelude.{
  String, ◌≡◌, refl, ap, subst, All, All-map, arith, eq_iff, true, Option, none, some, List, [],
  ◌∷◌, map, Result, ok,
}
use func.Prelude.Members.{contains}
use func.Cty.{Bytes}
use func.Decoder.{has_errors}
use func.Decoder.{has_errors}
use func.Decoder.Samples.{cells}
use func.Decoder.Config.Samples.{
  library, types, queue_block, dead_letters, names, decoded_of, result, result-eq,
}
use func.Api.{ApplyRequest, SourceRequest, Server, client_apply, ClientError}
use func.Api.Diags.{
  HclDiagnostic, error, diags_from_hcl, diags_to_hcl, as_received, diags_to_hcl-diags_from_hcl,
}
use func.Api.Retry.{Uploaded, client_apply-ends}

-- The state is the list of keys in the source storage.
abbrev server : Server Bytes Bytes String String (List String)
server = record {
  library = library;
  unknown_val = λ t. [];
  type_named = types;
  cells = cells;
  rounds = names ∷ [];
  names = names;
  has = λ keys key. ok (contains key keys);
  appended = λ srcs. srcs;
  appended-Perm = Permᴰ.refl;
  new_upload = λ src. ok src.key;
  put_graph = λ project g keys. (none, keys);
  reconcile = none;
}

abbrev request : ApplyRequest Bytes
request = record {
  project = "example";
  blocks = queue_block ∷ dead_letters ∷ [];
  config_diagnostics = [];
}

-- An upload adds the keys.
abbrev add_keys : List (SourceRequest String) → List String → List String
add_keys [] keys = keys
add_keys (r ∷ rs) keys = r.key ∷ add_keys rs keys

contains-add_keys :
    (rs : List (SourceRequest String)) (keys : List String) (k : String)
    → contains k keys ≡ true
    → contains k (add_keys rs keys) ≡ true
unfolding contains
contains-add_keys [] keys k h = h
contains-add_keys (r ∷ rs) keys k h = ground (arith, contains-add_keys rs keys k h)

add_keys-present :
    (rs : List (SourceRequest String)) (keys : List String)
    → All (λ r. contains r.key (add_keys rs keys) ≡ true) rs
unfolding contains
add_keys-present [] keys = tt
add_keys-present (r ∷ rs) keys = (
  ground (arith, eq_iff r.key r.key),
  All-map (λ q. contains q.key (add_keys rs keys) ≡ true)
      (λ q. contains q.key (r.key ∷ add_keys rs keys) ≡ true) (λ q h. ground (arith, h)) rs
      (add_keys-present rs keys),
)

add_keys-Uploaded :
    (rs : List (SourceRequest String)) (keys after : List String)
    → (Path (Option String × List String) (none, add_keys rs keys) (none, after))
    → Uploaded server rs keys after
add_keys-Uploaded rs keys after e = subst (Uploaded server rs keys) (ap (λ x. x.1) e) (
  All-map (λ r. contains r.key (add_keys rs keys) ≡ true) _ (λ r h. ap ok h) rs
      (add_keys-present rs keys),
  λ k h. let was : contains k keys ≡ true = cc in ap ok (contains-add_keys rs keys k was),
)

client_apply-ends_example :
    (x : Result (ClientError Bytes String) (Unit {0}) × List String) × (client_apply server
        (λ rs keys. (none, add_keys rs keys))
        2
        request
        []
      ≡ some x)
client_apply-ends_example =
    client_apply-ends server (λ rs keys. (none, add_keys rs keys)) request []
      (ok (decoded_of result)) result-eq add_keys-Uploaded

abbrev sent : HclDiagnostic
sent = record {
  severity = error;
  summary = "Resource not supported";
  detail = "";
  subject = none;
  context = none;
}

diags_to_hcl-diags_from_hcl_example :
    diags_to_hcl (diags_from_hcl (sent ∷ [])) ≡ map as_received (sent ∷ [])
diags_to_hcl-diags_from_hcl_example = diags_to_hcl-diags_from_hcl (sent ∷ [])
