-- ===== src/Violations/RoundTrip.antt =====
-- What `from_dict` makes of a dict that `to_dict` made.
use claude_library.Prelude.{
  ◌≡◌, ◌≢◌, refl, String, false, none, some, List, [], ◌∷◌, All, arith, ap, ◌∙◌, inl, inr,
  Bool-cases,
}
use claude_library.Prelude.Int.{ℤ, pos, ◌≤ℤ◌}
use claude_library.Prelude.Key.{◌=?◌, string_key}
use claude_library.Violations.State.{
  value, ok, Location, validate_location, text, number, Entries, get, Violation, construct,
  to_severity,
}
use claude_library.Violations.Records.{
  as_text, as_number, as_table, text_at, number_or_zero, line_of, flat_location, location_of,
  to_dict, from_dict, to_list, from_list,
}
use claude_library.Violations.Lookup.{
  IsPlain, KeepsNames, read_severity, get-optional, as_text-of_text, as_number-of_number,
  as_table-of_table,
}

filled : (a : String) → a ≢ "" → (a =? "") ≡ false
filled a h = elim (Bool-cases (a =? "")) [
  | inl e ↦ absurd (h ((string_key.beq_iff a "").0 e))
  | inr e ↦ e
]

read_line :
    (d : Entries) (z : ℤ)
    → get "line_number" d ≡ some (number z)
    → get "line" d ≡ none
    → line_of d ≡ ok z
unfolding line_of number_or_zero as_number
read_line d z h n = rw h (ground (arith, n))

-- A flat dict with every part of a location.
read_location :
    (d : Entries) (l : Location)
    → pos 0 ≤ℤ l.line
    → pos 0 ≤ℤ l.column
    → l.file ≢ ""
    → get "location" d ≡ none
    → get "file_path" d ≡ some (text l.file)
    → get "file" d ≡ none
    → line_of d ≡ ok l.line
    → number_or_zero "column" d ≡ ok l.column
    → as_number (get "end_line" d) ≡ ok l.end_line
    → as_number (get "end_column" d) ≡ ok l.end_column
    → location_of d ≡ ok l
unfolding location_of flat_location as_text validate_location
read_location d l h c f none_there file no_file line column end_line end_column =
    simp
      (
        location_of,
        none_there,
        flat_location,
        file,
        no_file,
        filled l.file f,
        line,
        column,
        end_line,
        end_column,
      )
      (ground arith)

module _ (v : Violation) (p : IsPlain v) where
  read_recommendation : as_text (get "recommendation" (to_dict v)) ≡ ok v.recommendation
  unfolding to_dict get
  read_recommendation =
      ap as_text (get-optional v p "recommendation") ∙ as_text-of_text v.recommendation

  read_snippet : as_text (get "code_snippet" (to_dict v)) ≡ ok v.code_snippet
  unfolding to_dict get
  read_snippet = ap as_text (get-optional v p "code_snippet") ∙ as_text-of_text v.code_snippet

  read_rule : as_text (get "rule_id" (to_dict v)) ≡ ok v.rule_id
  unfolding to_dict get
  read_rule = ap as_text (get-optional v p "rule_id") ∙ as_text-of_text v.rule_id

  read_analyzer : as_text (get "analyzer" (to_dict v)) ≡ ok v.analyzer
  unfolding to_dict get
  read_analyzer = ap as_text (get-optional v p "analyzer") ∙ as_text-of_text v.analyzer

  read_context : as_table (get "context" (to_dict v)) ≡ ok v.context
  unfolding to_dict get
  read_context = ap as_table (get-optional v p "context") ∙ as_table-of_table v.context

  read_end_line : as_number (get "end_line" (to_dict v)) ≡ ok v.location.end_line
  unfolding to_dict get
  read_end_line =
      ap as_number (get-optional v p "end_line") ∙ as_number-of_number v.location.end_line

  read_end_column : as_number (get "end_column" (to_dict v)) ≡ ok v.location.end_column
  unfolding to_dict get
  read_end_column =
      ap as_number (get-optional v p "end_column") ∙ as_number-of_number v.location.end_column

  not_there :
      (get "violation_type" (to_dict v) ≡ none)
      × (get "location" (to_dict v) ≡ none)
      × (get "file" (to_dict v) ≡ none)
      × (get "line" (to_dict v) ≡ none)
  unfolding to_dict get
  not_there = (
    get-optional v p "violation_type",
    get-optional v p "location",
    get-optional v p "file",
    get-optional v p "line",
  )

  read_column : number_or_zero "column" (to_dict v) ≡ ok v.location.column
  unfolding number_or_zero to_dict get
  read_column = refl

  reads :
      (as_text (get "type" (to_dict v)) ≡ ok (some v.violation_type))
      × (as_text (get "violation_type" (to_dict v)) ≡ ok none)
      × (text_at "severity" (to_dict v) ≡ ok (value v.severity))
      × (text_at "description" (to_dict v) ≡ ok v.description)
      × (get "file_path" (to_dict v) ≡ some (text v.location.file))
      × (get "line_number" (to_dict v) ≡ some (number v.location.line))
  unfolding to_dict get as_text text_at
  reads = (refl, ap as_text (get-optional v p "violation_type"), refl, refl, refl, refl)

  reads_location : location_of (to_dict v) ≡ ok v.location
  reads_location =
      let (no_type, no_location, no_file, no_line) = not_there in
      let (a, b, c, d, file, line) = reads in
      read_location (to_dict v) v.location p.line p.column p.filed no_location file no_file
        (read_line (to_dict v) v.location.line line no_line) read_column read_end_line
        read_end_column

-- One violation, for one that is plain.
from_dict-to_dict :
    (normalize : String → String) (v : Violation)
    → KeepsNames normalize
    → IsPlain v
    → from_dict normalize (to_dict v) ≡ ok v
unfolding from_dict construct
from_dict-to_dict normalize v k p =
    let (a, b, c, d, file, line) = reads v p in
    simp
      (
        from_dict,
        a,
        b,
        c,
        d,
        reads_location v p,
        read_recommendation v p,
        read_snippet v p,
        read_context v p,
        read_rule v p,
        read_analyzer v p,
        construct,
        filled v.violation_type p.typed,
        filled v.description p.described,
        to_severity,
        read_severity normalize k v.severity,
      )
      refl

-- A list of violations that their constructors let through, and of whose optional texts none is empty,
-- is the one that `from_list` reads from the dicts that `to_list` writes, if lower case and stripping
-- keep the five names of severities.
pub from_list-to_list :
    (normalize : String → String) (vs : List Violation)
    → KeepsNames normalize
    → All IsPlain vs
    → from_list normalize (to_list vs) ≡ ok vs
unfolding from_list to_list
from_list-to_list normalize [] k ps = refl
from_list-to_list normalize (v ∷ vs) k (p, ps) =
    rw (from_dict-to_dict normalize v k p, from_list-to_list normalize vs k ps) refl
