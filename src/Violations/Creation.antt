-- ===== src/Violations/Creation.antt =====
-- Which violations `create` makes.
use claude_library.Prelude.{
  ◌≡◌, refl, ◌∙◌, String, Bool, true, false, not, ◌&&◌, Option, List, [], ◌∷◌, arith, any,
  Bool-cases, inl, inr,
}
use claude_library.Prelude.Int.{ℤ, pos, leb_ℤ}
use claude_library.Prelude.Key.{◌=?◌, string_key}
use claude_library.Violations.State.{
  Severity, all_severities, value, find_severity, from_string, to_severity, Result, ok, raises,
  GivenSeverity, by_name, given, validate_location, construct,
}
use claude_library.Violations.Factory.{Options, valid_severity, validate_inputs, create}
use claude_library.Violations.Lookup.{KeepsNames}

abbrev pub succeeded : {A : Type 0} → Result A → Bool
succeeded (ok a) = true
succeeded (raises e) = false

found :
    (name : String) (ss : List Severity)
    → succeeded (find_severity name ss) ≡ any (λ s. value s =? name) ss
unfolding find_severity
found name [] = refl
found name (s ∷ ss) = ground (arith, found name ss)

module _ (lower strip : String → String) (keeps : KeepsNames strip) where
  stripped :
      (name : String) (ss : List Severity)
      → any (λ s. value s =? lower name) ss ≡ true
      → strip (lower name) ≡ lower name
  stripped name [] h = absurd (cc h)
  stripped name (s ∷ ss) h = elim (Bool-cases (value s =? lower name)) [
    | inl e ↦ let same = (string_key.beq_iff (value s) (lower name)).0 e in rw⁻¹ same (keeps s)
    | inr e ↦ ground (arith, e, stripped name ss)
  ]

  known_severity :
      (g : GivenSeverity)
      → valid_severity lower strip g ≡ true
      → succeeded (to_severity (λ name. strip (lower name)) g) ≡ true
  unfolding valid_severity to_severity from_string
  known_severity (given s) h = refl
  known_severity (by_name name) h =
      rw (stripped name all_severities h) (found (lower name) all_severities ∙ h)

  -- `create` succeeds exactly when type, file and description are not empty, the severity is a member
  -- or the name of one in any case, and neither the line nor the column is negative.
  pub create_succeeds :
      (analyzer : Option String) (violation_type : String) (severity : GivenSeverity)
      (file : String) (line : ℤ) (description : String) (o : Options)
      → succeeded (create lower strip analyzer violation_type severity file line description o) ≡ (
          not (violation_type =? "")
          && not (file =? "")
          && not (description =? "")
          && valid_severity lower strip severity
          && leb_ℤ (pos 0) line
          && leb_ℤ (pos 0) o.column)
  unfolding create validate_inputs validate_location construct to_severity
  create_succeeds analyzer violation_type severity file line description o =
      ground (arith, known_severity severity)
