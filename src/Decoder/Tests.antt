-- ===== src/Decoder/Tests.antt =====
-- resource/hcldecoder/decoder.go: the theorems at a project of three resources.
use func.Prelude.{
  ℕ, zero, suc, String, ◌≡◌, ◌≢◌, refl, ◌⊎◌, true, inl, inr, Bool-cases, Option, none, some, List,
  [], ◌∷◌, Result, ok, All, arith, ◌==◌, eq_iff,
}
use func.Prelude.Members.{contains}
use func.Cty.{Bytes}
use func.Expression.{references}
use func.TypePath.{attribute_type}
use func.Decoder.{transform_attributes, put_res, alike, is_capsule, list_val, validate, write}
use func.Decoder.Resolve.{
  resolve_all, first_round, resolve_res, visit, resolve_parts, fate, field_fate, output_fate,
  asserted, input_fate, settle, settled_value,
}
use func.Decoder.Samples.{three_resources}
use func.TypePath.{apply_type_path, apply_from, step_type}
use func.Expression.{merge_literals, concat, join, join_values, merge_from, part_value, value, walk}
use func.Schema.{below_pointers, tag_of}
use func.Decoder.{Diagnostics, input_of}
use func.Decoder.Samples.{
  texts, texts-MadeHave, cells, queue, worker, alarm, project, before, rank, output_cells, logger,
  two_resources, with_output, with_chain,
}
use func.Decoder.Resolve.{State, resolve_values}
use func.Decoder.Resolve.Visit.{IsPlainStore}
use func.Decoder.Resolve.Round.{IsCapsuleAt, IsCovered, IsOutputIn, output_at}
use mathlib.Core.List.{Memᴰ}
use func.Cty.{get_attr_step}
use func.TypePath.{string_type}
use func.Decoder.Resolve.Stuck.{IsStuck, resolve_values-IsStuck}
use func.Decoder.Resolve.Settled.{resolve_values-IsOutputIn}
use func.Decoder.Resolve.Ends.{Ranked, IsSettling, resolve_values-ends}

cells-IsPlainStore : IsPlainStore cells
unfolding cells
cells-IsPlainStore zero = tt
cells-IsPlainStore (suc a) = tt

capsules :
    (n f : String) (a : ℕ)
    → IsCapsuleAt project n f a
    → ((n ≡ "worker") × (a ≡ 0)) ⊎ ((n ≡ "alarm") × (a ≡ 1))
unfolding project input_of
capsules n f a (r, there, found) = elim (Bool-cases (n == "queue")) [
  | inl is ↦ let e : r ≡ queue = ground arith in let found' = rw e at found in ground arith
  | inr not_queue ↦ elim (Bool-cases (n == "worker")) [
    | inl is ↦
        let e : r ≡ worker = ground arith in
        let found' = rw e at found in
        let n_eq : n ≡ "worker" = ground (arith, eq_iff n "worker") in
        let a_eq : a ≡ 0 = ground arith in inl (n_eq, a_eq)
    | inr not_worker ↦
        let e : r ≡ alarm = ground arith in
        let found' = rw e at found in
        let n_eq : n ≡ "alarm" = ground (arith, eq_iff n "alarm") in
        let a_eq : a ≡ 1 = ground arith in inr (n_eq, a_eq)
  ]
]

before-Ranked : Ranked rank 2 before
unfolding cells rank references output_at project attribute_type
before-Ranked = record {
  chain = λ n f a h l. elim (capsules n f a h) [
    | inl (n_eq, a_eq) ↦ rw (n_eq, a_eq) ((refl, omega arith), tt)
    | inr (n_eq, a_eq) ↦ absurd (omega (arith, rw n_eq at l))
  ];
  settling = λ a. settles a;
}
  where
    settles :
        (a : ℕ) → All (IsSettling rank (output_at project) 2) (references (cells a).expression)
    settles zero = (inr (omega arith), tt)
    settles (suc a) = (inr (omega arith), tt)

before-IsCovered : IsCovered before ("alarm" ∷ "worker" ∷ "queue" ∷ [])
unfolding contains
before-IsCovered n f a h = elim (capsules n f a h) [
  | inl (n_eq, _) ↦ rw n_eq refl
  | inr (n_eq, _) ↦ rw n_eq refl
]

abbrev backwards : List String
backwards = "alarm" ∷ "worker" ∷ "queue" ∷ []

resolve_values-ends_example :
    (result : Result (Diagnostics Bytes) (State Bytes)) × (resolve_values texts
        (backwards ∷ backwards ∷ backwards ∷ [])
        before
      ≡ some result)
resolve_values-ends_example =
    resolve_values-ends texts rank 2 (backwards ∷ backwards ∷ backwards ∷ []) before texts-MadeHave
      cells-IsPlainStore before-Ranked
      (before-IsCovered, (before-IsCovered, (before-IsCovered, tt))) (omega arith)

named : (n m : String) → (n == m) ≡ true → n ≡ m
named n m h = ground (arith, eq_iff n m)

output_cells-IsPlainStore : IsPlainStore output_cells
unfolding output_cells
output_cells-IsPlainStore zero = tt
output_cells-IsPlainStore (suc a) = tt

abbrev forwards : List String
forwards = "queue" ∷ "logger" ∷ []

with_output-IsCovered : IsCovered with_output forwards
unfolding two_resources contains
with_output-IsCovered n f a (r, there, found) = elim (Bool-cases (n == "queue")) [
  | inl is ↦ rw (named n "queue" is) refl
  | inr not_queue ↦ elim (Bool-cases (n == "logger")) [
    | inl is ↦ rw (named n "logger" is) refl
    | inr not_logger ↦ ground arith
  ]
]

-- The state behind a call that has returned one.
abbrev state_of : Option (Result (Diagnostics Bytes) (State Bytes)) → State Bytes → State Bytes
state_of (some (ok t)) s = t
state_of o s = s

abbrev settled : State Bytes
settled = state_of (resolve_values texts (forwards ∷ []) with_output) with_output

settled-eq : resolve_values texts (forwards ∷ []) with_output ≡ some (ok settled)
unfolding resolve_values resolve_all first_round resolve_res transform_attributes put_res visit
    resolve_parts fate field_fate attribute_type output_fate apply_type_path apply_from asserted
    merge_literals input_fate settle settled_value alike input_of is_capsule list_val validate write
    concat join join_values merge_from part_value value walk below_pointers tag_of step_type
    output_cells two_resources three_resources
settled-eq = refl

settled-sink : IsCapsuleAt settled.resources "logger" "sink" 0
unfolding resolve_values resolve_all first_round resolve_res transform_attributes put_res visit
    resolve_parts fate field_fate attribute_type output_fate apply_type_path apply_from asserted
    merge_literals input_fate settle settled_value alike input_of is_capsule list_val validate write
    concat join join_values merge_from part_value value walk below_pointers tag_of step_type
    output_cells two_resources three_resources
settled-sink = (logger, refl, refl)

resolve_values-IsOutputIn_example :
    All (IsOutputIn (output_at two_resources)) (references (settled.progress.store 0).expression)
resolve_values-IsOutputIn_example =
    resolve_values-IsOutputIn texts (forwards ∷ []) with_output settled "logger" "sink" 0
      texts-MadeHave output_cells-IsPlainStore (with_output-IsCovered, tt) settled-eq settled-sink

-- An input that refers to an input which refers to an output is counted in every round.
with_chain-waits :
    resolve_values texts (backwards ∷ backwards ∷ backwards ∷ backwards ∷ []) with_chain ≡ none
unfolding resolve_values resolve_all first_round resolve_res transform_attributes put_res visit
    resolve_parts fate field_fate attribute_type output_fate apply_type_path apply_from asserted
    merge_literals input_fate settle settled_value alike input_of is_capsule list_val validate write
    concat join join_values merge_from part_value value walk below_pointers tag_of step_type
    output_cells two_resources three_resources
with_chain-waits = refl

abbrev chain_names : List String
chain_names = "alarm" ∷ "logger" ∷ "queue" ∷ []

with_chain-IsCovered : IsCovered with_chain chain_names
unfolding three_resources two_resources contains
with_chain-IsCovered n f a (r, there, found) = elim (Bool-cases (n == "alarm")) [
  | inl is ↦ rw (named n "alarm" is) refl
  | inr not_alarm ↦ elim (Bool-cases (n == "queue")) [
    | inl is ↦ rw (named n "queue" is) refl
    | inr not_queue ↦ elim (Bool-cases (n == "logger")) [
      | inl is ↦ rw (named n "logger" is) refl
      | inr not_logger ↦ ground arith
    ]
  ]
]

with_chain-IsStuck : IsStuck with_chain "alarm" "text" "logger" "sink"
unfolding three_resources two_resources output_cells references output_at attribute_type input_of
    apply_type_path apply_from
with_chain-IsStuck = record {
  from = 1;
  over = 0;
  rest = [];
  to_output = get_attr_step "queue" ∷ get_attr_step "url" ∷ [];
  first = (alarm, refl, refl);
  second = (logger, refl, refl);
  no_output = refl;
  is_output = (string_type, refl, (string_type, refl));
  refers = Memᴰ.head refl;
  refers_to_output = Memᴰ.head refl;
}

resolve_values-IsStuck_example :
    resolve_values texts (chain_names ∷ chain_names ∷ []) with_chain ≢ some (ok with_chain)
resolve_values-IsStuck_example =
    resolve_values-IsStuck texts texts-MadeHave (chain_names ∷ chain_names ∷ []) with_chain
      with_chain "alarm" "text" "logger" "sink" output_cells-IsPlainStore
      (with_chain-IsCovered, (with_chain-IsCovered, tt)) with_chain-IsStuck
