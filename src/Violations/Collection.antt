-- ===== src/Violations/Collection.antt =====
-- `ViolationCollection`. Its methods return new collections, but for `add` and `extend`.
use claude_library.Prelude.{
  ℕ, ◌+◌, String, Bool, true, false, none, some, List, [], ◌∷◌, ◌++◌, leb, any, filter,
}
use Prim.Native.Nat.{Ordering}
use Prim.Native.String.{compare, find, len}
use claude_library.Prelude.Int.{ltb_ℤ}
use claude_library.Prelude.Key.{Key, ◌=?◌, string_key}
use claude_library.Prelude.Dict.{Dict, lookup, insert}
use claude_library.Prelude.Sort.{sorted}
use claude_library.Violations.State.{
  Severity, critical, severity_key, value, lt, le, all_severities, Violation,
}

abbrev pub ViolationCollection : Type 0
ViolationCollection = List Violation

unfoldable pub add : Violation → ViolationCollection → ViolationCollection
add v c = c ++ v ∷ []

unfoldable pub extend : List Violation → ViolationCollection → ViolationCollection
extend vs c = c ++ vs

-- `key in keys`, for a tuple of keys.
abbrev among {ℓ} : {K : Type ℓ} ⦃e : Key K⦄ → K → List K → Bool
among k ks = any (λ j. j =? k) ks

unfoldable pub filter_by_severity : List Severity → ViolationCollection → ViolationCollection
filter_by_severity severities c = filter (λ v. among v.severity severities) c

unfoldable pub filter_by_type : List String → ViolationCollection → ViolationCollection
filter_by_type types c = filter (λ v. among v.violation_type types) c

-- `find` gives a position past the end where the pattern does not occur.
unfoldable pub filter_by_file : String → ViolationCollection → ViolationCollection
filter_by_file pattern c = filter (λ v. leb (find v.location.file pattern) (len v.location.file)) c

-- `sorted(..., key=severity, reverse=not descending)`
abbrev pub severity_before : Bool → Violation → Violation → Bool
severity_before true a b = lt a.severity b.severity
severity_before false a b = lt b.severity a.severity

unfoldable pub sort_by_severity : Bool → ViolationCollection → ViolationCollection
sort_by_severity descending c = sorted (severity_before descending) c

-- Pairs are compared by the file and, for one file, by the line.
abbrev pub location_before : Violation → Violation → Bool
location_before a b = elim (compare a.location.file b.location.file) [
  | Ordering.lt ↦ true
  | Ordering.eq ↦ ltb_ℤ a.location.line b.location.line
  | Ordering.gt ↦ false
]

unfoldable pub sort_by_location : ViolationCollection → ViolationCollection
sort_by_location c = sorted location_before c

-- One round of the loops that group: `groups[key].append(v)`, after `groups[key] = []` for a new key.
unfoldable pub group_one :
    String → Violation → Dict String (List Violation) → Dict String (List Violation)
group_one key v groups = elim (lookup key groups) [
  | none ↦ insert key (v ∷ []) groups
  | some vs ↦ insert key (vs ++ v ∷ []) groups
]

unfoldable pub group_from :
    (Violation → String)
    → Dict String (List Violation)
    → List Violation
    → Dict String (List Violation)
group_from key groups [] = groups
group_from key groups (v ∷ vs) = group_from key (group_one (key v) v groups) vs

unfoldable pub group_by_file : ViolationCollection → Dict String (List Violation)
group_by_file c = group_from (λ v. v.location.file) [] c

unfoldable pub group_by_type : ViolationCollection → Dict String (List Violation)
group_by_type c = group_from (λ v. v.violation_type) [] c

unfoldable pub no_counts : List Severity → Dict String ℕ
no_counts [] = []
no_counts (s ∷ rest) = (value s, 0) ∷ no_counts rest

unfoldable pub count_one : Severity → Dict String ℕ → Dict String ℕ
count_one s counts = elim (lookup (value s) counts) [
  | none ↦ counts
  | some n ↦ insert (value s) (n + 1) counts
]

unfoldable pub count_from : Dict String ℕ → List Violation → Dict String ℕ
count_from counts [] = counts
count_from counts (v ∷ vs) = count_from (count_one v.severity counts) vs

unfoldable pub count_by_severity : ViolationCollection → Dict String ℕ
count_by_severity c = count_from (no_counts all_severities) c

unfoldable pub has_critical : ViolationCollection → Bool
has_critical c = any (λ v. v.severity =? critical) c

unfoldable pub has_blocking : Severity → ViolationCollection → Bool
has_blocking min_severity c = any (λ v. le v.severity min_severity) c
