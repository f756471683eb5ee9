-- ===== src/Reconciler/Samples.antt =====
-- A small world for the reconciler: definitions are values, every provider call succeeds except
-- the creation of a value that is empty, and the storage is a list.
use func.Prelude.{
  not, ℕ, zero, suc, ◌+◌, String, Bool, true, false, none, List, [], ◌∷◌, Result, ok, err, ◌==◌,
  ◌&&◌, if◌then◌else◌,
}
use func.Cty.{CtyPath, CtyError, get_attr_step}
use func.Graph.{Desired}
use func.Graph.Samples.{queue, worker}
use func.Reconciler.{Deployed, World, Run}
use func.Samples.{Value, text, unknown, object, values}

abbrev checksum : List ℕ → ℕ
checksum [] = 0
checksum (b ∷ bs) = b + checksum bs

abbrev hash_of : Value → ℕ
hash_of (text s) = checksum s
hash_of unknown = 0
hash_of (object f) = 1

abbrev make : Value → Result String Value
make (text []) = err "refused"
make v = ok v

-- A value has one field here, so a transformation calls back once.
abbrev transform_root :
    Value
    → (CtyPath Value → Value → Bool → Result CtyError Value × Bool)
    → Bool
    → Result CtyError Value × Bool
transform_root v f b = f (get_attr_step "url" ∷ []) v b

abbrev delete_named :
    List (Deployed Value) → Deployed Value → Result String (Unit {0}) × List (Deployed Value)
delete_named [] d = (err "not found", [])
delete_named (x ∷ xs) d =
    let rest = delete_named xs d in if x.name == d.name then (ok tt, xs) else (rest.0, x ∷ rest.1)

abbrev same_sources : List String → List String → Bool
same_sources [] [] = true
same_sources [] (y ∷ ys) = false
same_sources (x ∷ xs) [] = false
same_sources (x ∷ xs) (y ∷ ys) = x == y && same_sources xs ys

abbrev numbered : ℕ → String
numbered zero = "id0"
numbered (suc n) = "id"

abbrev pub world : World Value Value String (List (Deployed Value))
world = record {
  cty = values;
  acquire = λ n. none;
  registered = λ t. not (t == "unknown");
  hash = hash_of;
  new_definition = λ t. text [];
  from_cty_value = λ v d. ok v;
  output_value = λ t d. ok (object (λ n. d));
  sources_equal = same_sources;
  create_definition = λ d ss. make d;
  update_definition = λ d prev c s ss. make d;
  delete_definition = λ d. none;
  generate_id = numbered;
  transform = transform_root;
  path_equals = λ p q. true;
  put_resource = λ s d. (ok tt, d ∷ s);
  delete_resource = delete_named;
  list_resources = λ s. ok s;
}

-- A resource of a type that is not registered.
abbrev pub stranger : Desired Value
stranger = record { name = "stranger"; typename = "unknown"; input = unknown; sources = [] }

abbrev pub old_queue : Deployed Value
old_queue = record { desired = queue; id = "q"; output = text (b'u' ∷ []); deps = [] }

abbrev pub old_worker : Deployed Value
old_worker = record { desired = worker; id = "w"; output = text (b'o' ∷ []); deps = "queue" ∷ [] }

abbrev pub fresh : Run Value (List (Deployed Value))
fresh = record {
  existing = [];
  outputs = [];
  creates = 0;
  updates = 0;
  deletes = 0;
  store = [];
  ids = 0;
  log = [];
}

abbrev pub leftover : Run Value (List (Deployed Value))
leftover = record fresh {
  existing = old_queue ∷ old_worker ∷ [];
  store = old_queue ∷ old_worker ∷ [];
}
