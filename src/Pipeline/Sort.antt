-- ===== src/Pipeline/Sort.antt =====
-- `_topological_sort`: the graph of the steps and Kahn's algorithm. A Python set is a list without
-- repetitions, and the order in which a loop visits it is the parameter `arrange`.
pub mod Edges
pub mod Build
pub mod Kahn
pub mod Order
use claude_library.Prelude.{
  ℕ, zero, suc, ◌+◌, ◌-◌, String, Option, none, some, List, [], ◌∷◌, ◌++◌, ◌==◌, if◌then◌else◌,
  length,
}
use claude_library.Prelude.Key.{string_key}
use claude_library.Prelude.Dict.{Dict, lookup, contains, insert}
use claude_library.Prelude.Sets.{elem_of}
use claude_library.Pipeline.State.{StepConfig}

pub data Sorted : Type 0 where
  ordered : List String → Sorted
  unknown_dependency : String → String → Sorted
  circular : Sorted
  out_of_fuel : Sorted

-- `graph` and `in_degree`
pub record Degrees : Type 0 where
  pub graph : Dict String (List String)
  pub in_degree : Dict String ℕ

pub data Built : Type 0 where
  built : Degrees → Built
  missing : String → String → Built

-- `graph[d]`
unfoldable pub successors : String → Dict String (List String) → List String
successors d graph = elim (lookup d graph) [ none ↦ [] | some ns ↦ ns ]

-- `in_degree[n]`
unfoldable pub degree : String → Dict String ℕ → ℕ
degree n degrees = elim (lookup n degrees) [ none ↦ 0 | some k ↦ k ]

-- `s.add(x)`
unfoldable pub add_to_set : String → List String → List String
add_to_set x xs = if elem_of x xs then xs else xs ++ x ∷ []

unfoldable pub add_edge : String → String → Degrees → Degrees
add_edge name dep g = record {
  graph = insert dep (add_to_set name (successors dep g.graph)) g.graph;
  in_degree = insert name (degree name g.in_degree + 1) g.in_degree;
}

-- One round of `for neighbor in graph[node]` after the other.
unfoldable pub relax : List String → Dict String ℕ → List String → Dict String ℕ × List String
relax [] degrees queue = (degrees, queue)
relax (neighbor ∷ ns) degrees queue =
    let degrees' = insert neighbor (degree neighbor degrees - 1) degrees in
    relax ns degrees' (if degree neighbor degrees' == 0 then queue ++ neighbor ∷ [] else queue)

-- The names whose in-degree is zero.
unfoldable pub free_names : Dict String ℕ → List String
free_names [] = []
free_names ((name, k) ∷ d) = let rest = free_names d in if k == 0 then name ∷ rest else rest

-- The `while` loop; none where the fuel runs out.
unfoldable pub kahn :
    (List String → List String)
    → Dict String (List String)
    → ℕ
    → Dict String ℕ
    → List String
    → List String
    → Option (List String)
unfolding relax
kahn arrange graph zero degrees [] result = some result
kahn arrange graph zero degrees (node ∷ queue) result = none
kahn arrange graph (suc fuel) degrees [] result = some result
kahn arrange graph (suc fuel) degrees (node ∷ queue) result =
    let (degrees', queue') = relax (arrange (successors node graph)) degrees queue in
    kahn arrange graph fuel degrees' queue' (result ++ node ∷ [])

module _ {V : Type 0} where
  unfoldable pub add_edges : Dict String (StepConfig V) → String → List String → Degrees → Built
  unfolding add_edge
  add_edges steps name [] g = built g
  add_edges steps name (dep ∷ deps) g =
      if contains dep steps
      then add_edges steps name deps (add_edge name dep g)
      else missing name dep

  unfoldable pub add_steps :
      Dict String (StepConfig V) → Dict String (StepConfig V) → Degrees → Built
  unfolding add_edges
  add_steps steps [] g = built g
  add_steps steps ((name, step) ∷ rest) g = elim (add_edges steps name step.depends_on g) [
    | built g' ↦ add_steps steps rest g'
    | missing n d ↦ missing n d
  ]

  -- `{name: set() for name in steps}` and `{name: 0 for name in steps}`
  unfoldable pub no_edges : Dict String (StepConfig V) → Degrees
  no_edges [] = record { graph = []; in_degree = [] }
  no_edges ((name, step) ∷ rest) =
      let g = no_edges rest in
      record { graph = (name, []) ∷ g.graph; in_degree = (name, 0) ∷ g.in_degree }

  unfoldable pub topological_sort :
      (List String → List String) → Dict String (StepConfig V) → Sorted
  unfolding add_steps no_edges kahn free_names
  topological_sort arrange steps = elim (add_steps steps steps (no_edges steps)) [
    | missing n d ↦ unknown_dependency n d
    | built g ↦ elim (kahn arrange g.graph (length steps) g.in_degree (free_names g.in_degree) []) [
      | none ↦ out_of_fuel
      | some result ↦ if length result == length steps then ordered result else circular
    ]
  ]
