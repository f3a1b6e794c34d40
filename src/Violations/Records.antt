-- ===== src/Violations/Records.antt =====
-- The dicts that stand for a location and for a violation: to_dict and from_dict.
use claude_library.Prelude.{String, Option, none, some, List, [], ◌∷◌, ◌==◌, if◌then◌else◌}
use claude_library.Prelude.Int.{ℤ, pos, negsuc}
use claude_library.Prelude.Key.{◌=?◌, string_key}
use claude_library.Violations.State.{
  value, missing_file_path, key_error, ill_typed, Result, ok, raises, ◌>>=◌, Location,
  validate_location, Value, text, number, nothing, table, Entries, done, entry, get, Violation,
  by_name, construct,
}

-- `result[key] = value` of a key that is not there yet, when the value is not None.
abbrev pub number_entry : String → Option ℤ → Entries → Entries
number_entry key none rest = rest
number_entry key (some n) rest = entry key (number n) rest

-- The same for a text, when it is truthy: neither None nor empty.
abbrev pub text_entry : String → Option String → Entries → Entries
text_entry key none rest = rest
text_entry key (some t) rest = if t =? "" then rest else entry key (text t) rest

abbrev pub context_entry : Entries → Entries → Entries
context_entry done rest = rest
context_entry (entry k v c) rest = entry "context" (table (entry k v c)) rest

-- `Location.to_dict`
unfoldable pub location_to_dict : Location → Entries
location_to_dict l = entry "file" (text l.file) (
    entry "line" (number l.line) (
      entry "column" (number l.column)
        (number_entry "end_line" l.end_line (number_entry "end_column" l.end_column done))))

-- The entries that `Violation.to_dict` writes when there is something to write.
unfoldable pub optional : Violation → Entries
optional v = number_entry "end_line" v.location.end_line (
    number_entry "end_column" v.location.end_column (
      text_entry "recommendation" v.recommendation (
        text_entry "code_snippet" v.code_snippet (
          context_entry v.context
            (text_entry "rule_id" v.rule_id (text_entry "analyzer" v.analyzer done))))))

-- `Violation.to_dict`
unfoldable pub to_dict : Violation → Entries
unfolding value optional
to_dict v = entry "type" (text v.violation_type) (
    entry "severity" (text (value v.severity)) (
      entry "file_path" (text v.location.file) (
        entry "line_number" (number v.location.line) (
          entry "column" (number v.location.column)
            (entry "description" (text v.description) (optional v))))))

-- The values that a constructor takes. A value of another type than the annotations say is outside
-- the model, which gives `ill_typed`.
unfoldable pub as_text : Option Value → Result (Option String)
as_text none = ok none
as_text (some nothing) = ok none
as_text (some (text t)) = ok (some t)
as_text (some _) = raises ill_typed

unfoldable pub as_number : Option Value → Result (Option ℤ)
as_number none = ok none
as_number (some nothing) = ok none
as_number (some (number n)) = ok (some n)
as_number (some _) = raises ill_typed

unfoldable pub as_table : Option Value → Result Entries
as_table none = ok done
as_table (some (table e)) = ok e
as_table (some _) = raises ill_typed

-- `data[key]` where a text, or a number, is wanted.
unfoldable pub text_at : String → Entries → Result String
text_at key d = elim (get key d) [
  | none ↦ raises (key_error key)
  | some v ↦ elim v [ text t ↦ ok t | _ ↦ raises ill_typed ]
]

number_at : String → Entries → Result ℤ
number_at key d = elim (get key d) [
  | none ↦ raises (key_error key)
  | some v ↦ elim v [ number n ↦ ok n | _ ↦ raises ill_typed ]
]

-- `data.get(key, 0)`: a value of None is no number.
unfoldable pub number_or_zero : String → Entries → Result ℤ
number_or_zero key d = elim (get key d) [
  | none ↦ ok (pos 0)
  | some v ↦ elim v [ number n ↦ ok n | _ ↦ raises ill_typed ]
]

-- `Location.from_dict`
unfoldable pub location_from_dict : Entries → Result Location
unfolding text_at number_at number_or_zero as_number validate_location
location_from_dict d = text_at "file" d >>= λ f. number_at "line" d >>= λ l.
    number_or_zero "column" d >>= λ c. as_number (get "end_line" d) >>= λ el.
    as_number (get "end_column" d) >>= λ ec.
    validate_location (record { file = f; line = l; column = c; end_line = el; end_column = ec })

-- `a or b` of two texts that may be missing.
abbrev pub or_else : Option String → Option String → Option String
or_else none b = b
or_else (some t) b = if t =? "" then b else some t

-- `data.get("line_number") or data.get("line", 0)`
unfoldable pub line_of : Entries → Result ℤ
unfolding as_number number_or_zero
line_of d = as_number (get "line_number" d) >>= λ n. elim n [
  | none ↦ number_or_zero "line" d
  | some z ↦ elim z [
    | pos k ↦ if k == 0 then number_or_zero "line" d else ok (pos k)
    | negsuc k ↦ ok (negsuc k)
  ]
]

unfoldable pub flat_location : Entries → Result Location
unfolding as_text as_number number_or_zero line_of validate_location
flat_location d = as_text (get "file_path" d) >>= λ a. as_text (get "file" d) >>= λ b.
    elim (or_else a b) [
      | none ↦ raises missing_file_path
      | some f ↦
          if f =? ""
          then raises missing_file_path
          else (line_of d >>= λ l. number_or_zero "column" d >>= λ c.
              as_number (get "end_line" d) >>= λ el. as_number (get "end_column" d) >>= λ ec.
              validate_location
                (record { file = f; line = l; column = c; end_line = el; end_column = ec }))
    ]

-- Nested under "location" when there is a dict there, flat otherwise.
unfoldable pub location_of : Entries → Result Location
unfolding flat_location location_from_dict
location_of d = elim (get "location" d) [
  | none ↦ flat_location d
  | some v ↦ elim v [ table e ↦ location_from_dict e | _ ↦ flat_location d ]
]

-- `Violation.from_dict`
unfoldable pub from_dict : (String → String) → Entries → Result Violation
unfolding as_text as_table text_at location_of construct
from_dict normalize d = as_text (get "type" d) >>= λ a. as_text (get "violation_type" d) >>= λ b.
    location_of d >>= λ l. text_at "severity" d >>= λ name.
    text_at "description" d >>= λ description.
    as_text (get "recommendation" d) >>= λ recommendation.
    as_text (get "code_snippet" d) >>= λ snippet. as_table (get "context" d) >>= λ context.
    as_text (get "rule_id" d) >>= λ rule_id. as_text (get "analyzer" d) >>= λ analyzer.
    construct normalize (or_else a b) (by_name name) description (λ t severity. record {
      violation_type = t;
      severity = severity;
      location = l;
      description = description;
      recommendation = recommendation;
      code_snippet = snippet;
      context = context;
      rule_id = rule_id;
      analyzer = analyzer;
    })

-- `ViolationCollection.to_list` and `from_list`.
unfoldable pub to_list : List Violation → List Entries
unfolding to_dict
to_list [] = []
to_list (v ∷ vs) = to_dict v ∷ to_list vs

unfoldable pub from_list : (String → String) → List Entries → Result (List Violation)
unfolding from_dict
from_list normalize [] = ok []
from_list normalize (d ∷ ds) =
    from_dict normalize d >>= λ v. from_list normalize ds >>= λ vs. ok (v ∷ vs)
