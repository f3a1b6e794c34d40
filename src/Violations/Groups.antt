-- ===== src/Violations/Groups.antt =====
-- The groups and the counts of a collection, against a description by filters.
use claude_library.Prelude.{
  ℕ, ◌+◌, ◌≡◌, refl, sym, ◌∙◌, ap, String, true, Option, none, some, List, [], ◌∷◌, ◌++◌, arith,
  filter, count_if, Option-cases, Bool-cases, inl, inr, if◌then◌else◌,
}
use mathlib.Core.List.{append_assoc}
use claude_library.Prelude.Key.{◌=?◌, string_key}
use claude_library.Prelude.Dict.{Dict, lookup, lookup-insert}
use claude_library.Violations.State.{
  Severity, all_severities, critical, high, medium, low, info, severity_key, value, ok,
  find_severity, Violation,
}
use claude_library.Violations.Collection.{
  ViolationCollection, group_one, group_from, group_by_file, group_by_type, no_counts, count_one,
  count_from, count_by_severity,
}

-- A group that has more violations behind it; without any there is no group.
abbrev pub joined : Option (List Violation) → List Violation → Option (List Violation)
joined o [] = o
joined none (v ∷ vs) = some (v ∷ vs)
joined (some us) (v ∷ vs) = some (us ++ v ∷ vs)

joined_one :
    (o : Option (List Violation)) (v : Violation) (vs : List Violation)
    → joined (joined o (v ∷ [])) vs ≡ joined o (v ∷ vs)
joined_one none v [] = refl
joined_one none v (w ∷ vs) = refl
joined_one (some us) v [] = refl
joined_one (some us) v (w ∷ vs) = ap some (append_assoc us (v ∷ []) (w ∷ vs))

module _ (k key : String) (g : Dict String (List Violation)) where
  same_lookup : (key =? k) ≡ true → lookup key g ≡ lookup k g
  same_lookup h = ap (λ j. lookup j g) ((string_key.beq_iff key k).0 h)

  lookup-group_one :
      (v : Violation)
      → lookup k (group_one key v g)
        ≡ (if key =? k then joined (lookup k g) (v ∷ []) else lookup k g)
  unfolding group_one
  lookup-group_one v = elim (Option-cases (lookup key g)) [
    | inl e ↦ rw (group_one, e) (ground (arith, lookup-insert key k (v ∷ []) g, same_lookup, e))
    | inr (vs, e) ↦
        rw (group_one, e) (ground (arith, lookup-insert key k (vs ++ v ∷ []) g, same_lookup, e))
  ]

lookup-group_from :
    (key : Violation → String) (k : String) (g : Dict String (List Violation)) (vs : List Violation)
    → lookup k (group_from key g vs) ≡ joined (lookup k g) (filter (λ v. key v =? k) vs)
unfolding group_from
lookup-group_from key k g [] = refl
lookup-group_from key k g (v ∷ vs) =
    let r = lookup-group_from key k (group_one (key v) v g) vs in
    let o = lookup-group_one k (key v) g v in
    r ∙ ap (λ x. joined x (filter (λ v. key v =? k) vs)) o ∙ elim (Bool-cases (key v =? k)) [
      | inl e ↦ rw e (joined_one (lookup k g) v (filter (λ v. key v =? k) vs))
      | inr e ↦ rw e refl
    ]

-- The group of a file, or of a type, holds exactly the violations of that file or type, in the order
-- of the collection; a file or a type without violations has no group.
pub groups_are_filters :
    (c : ViolationCollection) (k : String)
    → (lookup k (group_by_file c)
        ≡ joined none (filter (λ (v : Violation). v.location.file =? k) c))
      × (lookup k (group_by_type c)
          ≡ joined none (filter (λ (v : Violation). v.violation_type =? k) c))
unfolding group_by_file group_by_type lookup
groups_are_filters c k = (
  lookup-group_from (λ v. v.location.file) k [] c,
  lookup-group_from (λ v. v.violation_type) k [] c,
)

find-value : (s : Severity) → find_severity (value s) all_severities ≡ ok s
unfolding find_severity value
find-value critical = refl
find-value high = refl
find-value medium = refl
find-value low = refl
find-value info = refl

value_injective : (s t : Severity) → value s ≡ value t → s ≡ t
value_injective s t e =
    let f = ap (λ name. find_severity name all_severities) e in
    let p : ok s ≡ ok t = sym (find-value s) ∙ f ∙ find-value t in cc p

value_distinct : (s t : Severity) → (value s =? value t) ≡ (s =? t)
value_distinct s t =
    let equal = λ (e : s ≡ t). ap value e in
    ground (
      arith,
      string_key.beq_iff (value s) (value t),
      severity_key.beq_iff s t,
      value_injective s t,
      equal,
    )

lookup-count_one :
    (s t : Severity) (n : ℕ) (counts : Dict String ℕ)
    → lookup (value s) counts ≡ some n
    → lookup (value s) (count_one t counts) ≡ some ((if t =? s then 1 else 0) + n)
unfolding count_one
lookup-count_one s t n counts h =
    let same = λ (e : (value t =? value s) ≡ true).
      ap (λ j. lookup j counts) ((string_key.beq_iff (value t) (value s)).0 e) in
    elim (Option-cases (lookup (value t) counts)) [
      | inl e ↦ rw (count_one, e) (ground (arith, value_distinct t s, same, e))
      | inr (m, e) ↦
          rw (count_one, e)
            (ground (
              arith,
              lookup-insert (value t) (value s) (m + 1) counts,
              value_distinct t s,
              same,
              e,
            ))
    ]

lookup-count_from :
    (s : Severity) (n : ℕ) (counts : Dict String ℕ) (vs : List Violation)
    → lookup (value s) counts ≡ some n
    → lookup (value s) (count_from counts vs) ≡ some (count_if (λ v. v.severity =? s) vs + n)
unfolding count_from
lookup-count_from s n counts [] h = h ∙ ap some (omega arith)
lookup-count_from s n counts (v ∷ vs) h =
    lookup-count_from s ((if v.severity =? s then 1 else 0) + n) (count_one v.severity counts) vs
      (lookup-count_one s v.severity n counts h)
    ∙ ap some (omega arith)

zero_counts : (s : Severity) → lookup (value s) (no_counts all_severities) ≡ some 0
unfolding no_counts value lookup
zero_counts critical = refl
zero_counts high = refl
zero_counts medium = refl
zero_counts low = refl
zero_counts info = refl

-- The count under the name of a severity is the number of violations of that severity.
pub counts_are_numbers :
    (c : ViolationCollection) (s : Severity)
    → lookup (value s) (count_by_severity c)
      ≡ some (count_if (λ (v : Violation). v.severity =? s) c)
unfolding count_by_severity
counts_are_numbers c s =
    lookup-count_from s 0 (no_counts all_severities) c (zero_counts s) ∙ ap some (omega arith)
