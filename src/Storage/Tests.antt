-- ===== src/Storage/Tests.antt =====
-- storage/teststore/store.go: the theorems at a project of two resources.
use mathlib.Core.List.{Memᴰ}
use func.Prelude.{String, ◌≡◌, ◌↔◌, none, some, [], ◌∷◌, ◌==◌, if◌then◌else◌, ℕ}
use func.Prelude.Maps.{assign, made, lookup, put_entry, entry_of}
use func.Reconciler.{Deployed}
use func.Storage.{
  Memory, empty_memory, list_resources, put_resources, put_resource, project_map, inner,
}
use func.Storage.Refines.{
  Contents, Represents, Performs, delete, call-Performs, put_resources-Represents,
  empty_memory-Represents,
}
use func.Prelude.Sorting.{IsSorted}
use func.Storage.Listed.{list_resources-IsSorted}

abbrev sample : String → Deployed ℕ
sample id = record {
  desired = record { name = "queue"; typename = "aws_queue"; input = 0; sources = [] };
  id = id;
  output = 1;
  deps = [];
}

abbrev nothing : Contents ℕ
nothing = record { resource_of = λ p i. none; graph_of = λ p. none }

abbrev seeded : Memory ℕ
seeded = record {
  resources = some (("project", some (("b", sample "b") ∷ ("a", sample "a") ∷ [])) ∷ []);
  graphs = none;
}

abbrev two : Contents ℕ
two = record {
  resource_of = λ p i.
      if "project" == p
      then if "a" == i
        then some (sample "a")
        else if "project" == p
        then if "b" == i then some (sample "b") else none
        else none
      else if "project" == p
      then if "b" == i then some (sample "b") else none
      else none;
  graph_of = λ p. none;
}

seeded-Represents : Represents seeded two
unfolding put_resources put_resource project_map inner assign made lookup put_entry entry_of
seeded-Represents =
    put_resources-Represents empty_memory nothing "project" (sample "b" ∷ sample "a" ∷ [])
      empty_memory-Represents

-- Deleting a resource of the project.
call-Performs_example : Performs seeded two (delete "project" (sample "b"))
call-Performs_example = call-Performs seeded two (delete "project" (sample "b")) seeded-Represents

list_resources-IsSorted_example :
    IsSorted (λ q. q.id) (list_resources seeded "project")
    × ((r : Deployed ℕ)
        → Memᴰ r (list_resources seeded "project") ↔ (two.resource_of "project" r.id ≡ some r))
list_resources-IsSorted_example = list_resources-IsSorted seeded two "project" seeded-Represents
