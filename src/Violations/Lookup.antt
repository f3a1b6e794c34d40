-- ===== src/Violations/Lookup.antt =====
-- What a look-up finds in a dict that `to_dict` made.
use claude_library.Prelude.{
  ◌≡◌, ◌≢◌, refl, String, Bool, true, false, Option, none, some, arith, ap, ◌∙◌, inl, inr,
  Bool-cases,
}
use claude_library.Prelude.Int.{ℤ, pos, ◌≤ℤ◌}
use claude_library.Prelude.Key.{◌=?◌, string_key}
use claude_library.Violations.State.{
  Severity, critical, high, medium, low, info, value, ok, Value, text, number, table, Entries, done,
  entry, get, Violation, find_severity, from_string,
}
use claude_library.Violations.Records.{
  number_entry, text_entry, context_entry, as_text, as_number, as_table, optional,
}

-- The value of an entry that is there, or what the entries behind it have.
abbrev pub pick : Bool → Option Value → Option Value → Option Value
pick true (some v) rest = some v
pick true none rest = rest
pick false _ rest = rest

abbrev pub of_text : Option String → Option Value
of_text none = none
of_text (some t) = some (text t)

abbrev pub of_number : Option ℤ → Option Value
of_number none = none
of_number (some n) = some (number n)

abbrev pub of_table : Entries → Option Value
of_table done = none
of_table (entry k v e) = some (table (entry k v e))

module _ (key : String) where
  get-entry :
      (k : String) (v : Value) (rest : Entries)
      → get key (entry k v rest) ≡ pick (k =? key) (some v) (get key rest)
  unfolding get
  get-entry k v rest = ground arith

  get-number_entry :
      (k : String) (n : Option ℤ) (rest : Entries)
      → get key (number_entry k n rest) ≡ pick (k =? key) (of_number n) (get key rest)
  unfolding get
  get-number_entry k n rest = ground arith

  get-text_entry :
      (k : String) (t : Option String) (rest : Entries)
      → t ≢ some ""
      → get key (text_entry k t rest) ≡ pick (k =? key) (of_text t) (get key rest)
  unfolding get
  get-text_entry k none rest h = ground arith
  get-text_entry k (some x) rest h = elim (Bool-cases (x =? "")) [
    | inl e ↦ absurd (h (ap some ((string_key.beq_iff x "").0 e)))
    | inr e ↦ rw e (get-entry k (text x) rest)
  ]

  get-context_entry :
      (c rest : Entries)
      → get key (context_entry c rest) ≡ pick ("context" =? key) (of_table c) (get key rest)
  unfolding get
  get-context_entry c rest = ground arith

-- What the two constructors check, and no optional text that is empty.
pub record IsPlain (v : Violation) : Type 0 where
  pub typed : v.violation_type ≢ ""
  pub described : v.description ≢ ""
  pub filed : v.location.file ≢ ""
  pub line : pos 0 ≤ℤ v.location.line
  pub column : pos 0 ≤ℤ v.location.column
  pub recommended : v.recommendation ≢ some ""
  pub quoted : v.code_snippet ≢ some ""
  pub ruled : v.rule_id ≢ some ""
  pub analysed : v.analyzer ≢ some ""

-- `lower` and `strip` change none of the five names.
abbrev pub KeepsNames : (String → String) → Type 0
KeepsNames normalize = (s : Severity) → normalize (value s) ≡ value s

pub read_severity :
    (normalize : String → String)
    → KeepsNames normalize
    → (s : Severity) → from_string normalize (value s) ≡ ok s
unfolding from_string find_severity value
read_severity normalize k critical = rw (k critical) refl
read_severity normalize k high = rw (k high) refl
read_severity normalize k medium = rw (k medium) refl
read_severity normalize k low = rw (k low) refl
read_severity normalize k info = rw (k info) refl

module _ (v : Violation) (p : IsPlain v) where
  pub get-optional :
      (key : String)
      → get key (optional v)
        ≡ pick ("end_line" =? key) (of_number v.location.end_line) (
            pick ("end_column" =? key) (of_number v.location.end_column) (
              pick ("recommendation" =? key) (of_text v.recommendation) (
                pick ("code_snippet" =? key) (of_text v.code_snippet) (
                  pick ("context" =? key) (of_table v.context) (
                    pick
                      ("rule_id" =? key)
                      (of_text v.rule_id)
                      (pick ("analyzer" =? key) (of_text v.analyzer) none))))))
  unfolding optional get
  get-optional key =
      let a = get-text_entry key "analyzer" v.analyzer done p.analysed in
      let r = get-text_entry key "rule_id" v.rule_id _ p.ruled ∙ ap (pick _ _) a in
      let c = get-context_entry key v.context _ ∙ ap (pick _ _) r in
      let s = get-text_entry key "code_snippet" v.code_snippet _ p.quoted ∙ ap (pick _ _) c in
      let m =
        get-text_entry key "recommendation" v.recommendation _ p.recommended ∙ ap (pick _ _) s in
      let e = get-number_entry key "end_column" v.location.end_column _ ∙ ap (pick _ _) m in
      get-number_entry key "end_line" v.location.end_line _ ∙ ap (pick _ _) e

pub as_text-of_text : (t : Option String) → as_text (pick true (of_text t) none) ≡ ok t
unfolding as_text
as_text-of_text t = ground arith

pub as_number-of_number : (n : Option ℤ) → as_number (pick true (of_number n) none) ≡ ok n
unfolding as_number
as_number-of_number n = ground arith

pub as_table-of_table : (c : Entries) → as_table (pick true (of_table c) none) ≡ ok c
unfolding as_table
as_table-of_table c = ground arith
