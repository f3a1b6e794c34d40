-- ===== src/Violations/State.antt =====
-- `Severity`, `Location` and `Violation`, with the checks of their constructors. A value of type Any
-- is a text, a number, None or a dict; line and column numbers are signed.
use claude_library.Prelude.{
  ℕ, ◌≡◌, ◌↔◌, String, Bool, true, false, ◌||◌, Option, none, some, List, [], ◌∷◌, ltb, arith,
  if◌then◌else◌,
}
use claude_library.Prelude.Int.{ℤ, pos, ltb_ℤ}
use claude_library.Prelude.Key.{Key, ◌=?◌, string_key}

pub data Severity : Type 0 where
  critical high medium low info : Severity

abbrev same_severity : Severity → Severity → Bool
same_severity critical critical = true
same_severity high high = true
same_severity medium medium = true
same_severity low low = true
same_severity info info = true
same_severity _ _ = false

pub same_severity_iff : (a b : Severity) → (same_severity a b ≡ true) ↔ (a ≡ b)
same_severity_iff a b = ground arith

instance abbrev pub severity_key : Key Severity
severity_key = record { beq = same_severity; beq_iff = same_severity_iff }

unfoldable pub value : Severity → String
value critical = "critical"
value high = "high"
value medium = "medium"
value low = "low"
value info = "info"

abbrev pub weight : Severity → ℕ
weight critical = 4
weight high = 3
weight medium = 2
weight low = 1
weight info = 0

-- `__lt__`, and `<=` as `total_ordering` derives it: `self < other or self == other`.
abbrev pub lt : Severity → Severity → Bool
lt a b = ltb (weight a) (weight b)

abbrev pub le : Severity → Severity → Bool
le a b = lt a b || (a =? b)

abbrev pub all_severities : List Severity
all_severities = critical ∷ high ∷ medium ∷ low ∷ info ∷ []

pub data Error : Type 0 where
  empty_file negative_line negative_column empty_type empty_description : Error
  missing_file_path unknown_severity invalid_severity file_required : Error
  type_required description_required : Error
  key_error : String → Error
  ill_typed : Error

pub data Result (A : Type 0) : Type 0 where
  ok : A → Result A
  raises : Error → Result A

infix 40 ◌>>=◌
abbrev pub ◌>>=◌ : {A B : Type 0} → Result A → (A → Result B) → Result B
ok a >>= f = f a
raises e >>= f = raises e

unfoldable pub find_severity : String → List Severity → Result Severity
unfolding value
find_severity normalized [] = raises unknown_severity
find_severity normalized (s ∷ rest) =
    if value s =? normalized then ok s else find_severity normalized rest

pub record Location : Type 0 where
  pub file : String
  pub line : ℤ
  pub column : ℤ
  pub end_line : Option ℤ
  pub end_column : Option ℤ

-- `Location.__post_init__`
unfoldable pub validate_location : Location → Result Location
validate_location l =
    if l.file =? ""
    then raises empty_file
    else if ltb_ℤ l.line (pos 0)
    then raises negative_line
    else if ltb_ℤ l.column (pos 0)
    then raises negative_column
    else ok l

mutual
  pub data Value : Type 0 where
    text : String → Value
    number : ℤ → Value
    nothing : Value
    table : Entries → Value

  -- The entries of a dict, in its order.
  pub data Entries : Type 0 where
    done : Entries
    entry : String → Value → Entries → Entries

unfoldable pub get : String → Entries → Option Value
get key done = none
get key (entry k v rest) = if k =? key then some v else get key rest

pub record Violation : Type 0 where
  pub violation_type : String
  pub severity : Severity
  pub location : Location
  pub description : String
  pub recommendation : Option String
  pub code_snippet : Option String
  pub context : Entries
  pub rule_id : Option String
  pub analyzer : Option String

-- A severity as it is given: by name, or as a member of the enumeration. `normalize` is
-- `value.lower().strip()`.
pub data GivenSeverity : Type 0 where
  by_name : String → GivenSeverity
  given : Severity → GivenSeverity

module _ (normalize : String → String) where
  -- `Severity.from_string`
  unfoldable pub from_string : String → Result Severity
  unfolding find_severity
  from_string name = find_severity (normalize name) all_severities

  unfoldable pub to_severity : GivenSeverity → Result Severity
  to_severity (by_name name) = from_string name
  to_severity (given s) = ok s

  -- `Violation.__post_init__` on the fields that it looks at. The rest of the violation is `make`.
  unfoldable pub construct :
      Option String → GivenSeverity → String → (String → Severity → Violation) → Result Violation
  unfolding to_severity
  construct none s description make = raises empty_type
  construct (some t) s description make =
      if t =? ""
      then raises empty_type
      else if description =? ""
      then raises empty_description
      else (to_severity s >>= λ severity. ok (make t severity))
