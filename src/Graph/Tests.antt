-- ===== src/Graph/Tests.antt =====
-- The methods of Graph on a small graph.
use func.Prelude.{◌≡◌, refl, ok, some, List, ◌↔◌, if◌then◌else◌, ◌==◌}
use func.Expression.{references}
use func.Graph.{
  Desired, empty, find, resource, add_resource, add_dependency, check_references, leaf_resources,
}
use func.Graph.Names.{names}
use func.Graph.Validity.{
  IsValid, Resolves, IsValid-empty, add_resource-IsValid, add_dependency-IsValid,
}
use func.Graph.Adding.{resource-add_resource, with_dependency, add_dependency_iff}
use func.Graph.Parents.{IsParents, parent_resources-IsParents}
use func.Graph.Leaves.{childless, leaf_resources-eq-childless}
use func.Graph.Samples.{queue, worker, reference, one, two, linked}
use func.Samples.{Value}

add_queue : add_resource empty queue ≡ ok one
unfolding add_resource find
add_queue = refl

add_worker : add_resource one worker ≡ ok two
unfolding add_resource find
add_worker = refl

add_reference : add_dependency two reference ≡ ok linked
unfolding add_dependency find check_references references
add_reference = refl

add_resource-IsValid_example : IsValid one
add_resource-IsValid_example = add_resource-IsValid queue IsValid-empty add_queue

two-IsValid : IsValid two
two-IsValid =
    add_resource-IsValid worker (add_resource-IsValid queue IsValid-empty add_queue) add_worker

add_dependency-IsValid_example : IsValid linked
add_dependency-IsValid_example = add_dependency-IsValid reference two-IsValid add_reference

linked-IsValid : IsValid linked
linked-IsValid = add_dependency-IsValid reference two-IsValid add_reference

resource-add_resource_example :
    resource two "queue" ≡ (if worker.name == "queue" then some worker else resource one "queue")
resource-add_resource_example = resource-add_resource one two worker "queue" add_worker

add_dependency_iff_example :
    (add_dependency two reference ≡ ok linked)
    ↔ (Resolves (names two.resources) reference × (linked ≡ with_dependency two reference))
add_dependency_iff_example = add_dependency_iff two linked reference

parent_resources-IsParents_example : (ps : List (Desired Value)) × IsParents linked "worker" ps
parent_resources-IsParents_example = parent_resources-IsParents linked "worker" linked-IsValid

leaf_resources-eq-childless_example :
    leaf_resources linked ≡ ok (childless linked.dependencies linked.resources)
leaf_resources-eq-childless_example = leaf_resources-eq-childless linked linked-IsValid
