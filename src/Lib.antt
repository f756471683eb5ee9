-- ===== src/Lib.antt =====
-- A model of func, which reconciles the cloud resources of a project with its configuration.
--
-- The parts of the program and how they interact. A client sends a configuration to the server
-- (api/client.go), which decodes it (api/server_apply.go) to a graph of desired resources
-- (resource/hcldecoder/decoder.go to resource/graph.go, with resource/dependency.go and
-- resource/resource.go), whose fields may depend on outputs of other resources through expressions
-- (resource/expression.go). The values of the inputs are checked by rules (resource/validation). If
-- sources are missing the client uploads them and asks again; otherwise the graph is stored
-- (storage/teststore/store.go is the store in memory) and reconciled. The reconciler
-- (resource/reconciler/reconciler.go) lists what a previous deployment has left in the storage,
-- processes each desired resource after its parents, each in a task of a group
-- (resource/reconciler/internal/task/group.go), and then removes what is left over, a resource after
-- its dependents. A resource is created, updated and deleted by its provider; those of the API
-- gateway compute their updates with provider/aws/internal/apigatewaypatch/patch.go.
--
-- The files.
-- Prelude: the names of the libraries that every module uses, and Result, for what a Go call comes
--   to: a value, a non-nil error, or a run-time panic. Panics of the code (an index out of range, a
--   nil dereference, a failed type assertion) are written out where they can occur.
-- Cty: the values of the cty library, which is not part of the repository: a record of operations,
--   and StringLaws for what MergeLiterals relies on, the normal form of the texts included.
-- Expression: References, Value and MergeLiterals. The list of parts is a List; the bytes of the
--   buffer are the argument of `concat`.
-- Graph: Graph and its methods AddResource, Resource, AddDependency, ParentResources,
--   DependenciesOf and LeafResources. A pointer to a resource is an Option of it, and the maps of
--   names are lists of names. Equals only calls a library that compares values, and is left out.
-- Reconciler: the state `Run` of a run, the collaborators as a record `World`, and the error
--   wrappings. A step of a run is a function from a run to a result and the run after it, so that
--   what was changed before an error stays changed.
-- Reconciler/Process: processResource after its parents, resolveDependencies included, as one such
--   step. The operations of a definition are functions of the World that stand for one run of them
--   under RetryNotify; `log` has an entry for each such run. The semaphore is the Acquire of the
--   World: it either fails or is passed. A write to the storage that fails may have changed it.
-- Reconciler/Tasks: the task group, CreateUpdate and processDependencies. The map of the group is a
--   function of names; `Step` is a move of one goroutine, and `Reach` any number of them in any order.
--   The processing of a resource is one step, at the end of its task: the code shares only the
--   outputs, the existing resources and the counters between tasks, under a lock or atomically.
-- Reconciler/Remove: RemovePrevious, with a phase for each goroutine and a counter for each wait
--   group, and removeResource. A counter does not go below zero in the model; Order shows that it is
--   never decremented at zero.
-- Reconciler/Reconcile: GetExisting, CreateUpdate and RemovePrevious in their order, as a relation
--   between the storage before, the result and the run at the end.
-- Validation: Validator, and in Validation/Builtin the built-in rules with strconv.Atoi. Texts are
--   lists of bytes, an input is given by its reflect.Kind, and floating point numbers are a
--   parameter. An int has 64 bits.
-- Patch: Resolve and all that it calls. Reflected types and values are data; reflect.DeepEqual is a
--   parameter, and sort.Strings an insertion sort.
-- TypePath: ApplyTypePath of ctyext/typepath.go, on types with the cases that the code tells apart.
--   TypePath/Typed says which paths a type has, as a relation.
-- Suggest: the choice of a candidate that is close to a text; the distance is that of a library.
-- Schema: the fields of a definition from the tags of its struct, and their cty types
--   (resource/schema.go, resource/ctytype.go). Reflected types are data.
-- Source: the text of the sources of a resource (config/models.go), on texts as lists of characters.
-- Decoder: the values of inputs while they are decoded. A capsule holds a pointer to an expression;
--   it is an address in a store of expressions, so that what is shared stays shared. Decoder/Expr
--   converts HCL expressions, Decoder/Inputs is decodeInputs with its diagnostics, Decoder/Resolve
--   is resolveValues, and Decoder/Config is DecodeBody. The order in which Go ranges over a map is an
--   argument. The parser of HCL, the conversion of cty values and the registered types are
--   parameters.
-- Api: Apply of the server and of the client, and in Api/Diags the diagnostics as they are sent
--   (api/httpapi/diags.go). The transport, the source storage and the reconciler are operations of
--   a record, with the order in which the goroutines of missingSource append, which is any order.
-- Storage: the store in memory. A nil map is told apart from an empty one.
-- Registry: the types that a server knows (resource/registry.go).
-- Prelude/Sorting: sort.Slice and sort.Strings, by insertion.
-- Prelude/Maps: Go's maps with texts as keys, as association lists with one entry for each key.
--
-- Loops are structural recursion on the list they range over, with three exceptions. resolveValues
-- loops until no reference is left: the model takes a list of orders, one for each round, and a bound
-- on the chains of references is shown to be enough. The digits of a number of 64 bits are written
-- with 16 as the bound, since each takes four bits. The client takes a number of requests, of which
-- two are enough. Where a theorem speaks of a graph without a cycle of dependencies, a rank of the
-- names is given under which every parent is lower than its child. The machine integers that
-- overflow are the counters of a run (`% 2 ^ 32`) and the numbers that Atoi and ParseInt read, whose
-- bounds are checked as the code checks them.
--
-- Not modelled: the texts of paths and the conversions between Go values and cty values
-- (ctyext/pathstring.go, ctyext/tocty.go, ctyext/fromcty.go), the parsing of struct tags and the names
-- of fields without one (resource/schema.go), and the storage on DynamoDB, the providers other than
-- their patches, the HTTP transport and the uploads, the command line, the loading of configuration
-- files and the source archives, which are mostly requests to services or to the file system. The
-- modelled parts meet them through the operations of their records.
pub mod Prelude
pub mod Cty
mod Samples
pub mod Expression
pub mod Graph
pub mod Reconciler
pub mod Registry
pub mod Validation
pub mod Patch
pub mod Suggest
pub mod TypePath
pub mod Schema
pub mod Decoder
pub mod Source
pub mod Api
pub mod Storage
