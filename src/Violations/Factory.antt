-- ===== src/Violations/Factory.antt =====
-- `ViolationFactory`: `create` with its checks. `lower` and `strip` are the methods of `str`.
use claude_library.Prelude.{String, Bool, true, Option, none, some, any, if◌then◌else◌}
use claude_library.Prelude.Int.{ℤ, pos}
use claude_library.Prelude.Key.{◌=?◌, string_key}
use claude_library.Violations.State.{
  value, all_severities, type_required, file_required, description_required, invalid_severity,
  Result, ok, raises, ◌>>=◌, GivenSeverity, by_name, given, Location, validate_location, Entries,
  done, Violation, construct, to_severity,
}
use claude_library.Violations.Records.{location_from_dict}

-- The arguments of `create` that have defaults.
pub record Options : Type 0 where
  pub column : ℤ
  pub end_line : Option ℤ
  pub end_column : Option ℤ
  pub recommendation : Option String
  pub code_snippet : Option String
  pub context : Entries
  pub rule_id : Option String

abbrev pub defaults : Options
defaults = record {
  column = pos 0;
  end_line = none;
  end_column = none;
  recommendation = none;
  code_snippet = none;
  context = done;
  rule_id = none;
}

module _ (lower strip : String → String) where
  -- A name is valid in any case, but not with spaces around it, which `from_string` would strip.
  unfoldable pub valid_severity : GivenSeverity → Bool
  valid_severity (given s) = true
  valid_severity (by_name name) = any (λ s. value s =? lower name) all_severities

  unfoldable pub validate_inputs : String → GivenSeverity → String → String → Result Unit
  unfolding valid_severity
  validate_inputs violation_type severity file description =
      if violation_type =? ""
      then raises type_required
      else if file =? ""
      then raises file_required
      else if description =? ""
      then raises description_required
      else if valid_severity severity
      then ok tt
      else raises invalid_severity

  unfoldable pub create :
      Option String → String → GivenSeverity → String → ℤ → String → Options → Result Violation
  unfolding validate_inputs validate_location construct to_severity
  create analyzer violation_type severity file line description o =
      validate_inputs violation_type severity file description >>= λ u.
      validate_location (record {
        file = file;
        line = line;
        column = o.column;
        end_line = o.end_line;
        end_column = o.end_column;
      })
      >>= λ l. to_severity (λ name. strip (lower name)) severity >>= λ s.
          construct (λ name. strip (lower name)) (some violation_type) (given s) description
            (λ t sev. record {
              violation_type = t;
              severity = sev;
              location = l;
              description = description;
              recommendation = o.recommendation;
              code_snippet = o.code_snippet;
              context = o.context;
              rule_id = o.rule_id;
              analyzer = analyzer;
            })

  unfoldable pub create_from_location :
      Option String → String → GivenSeverity → Location → String → Options → Result Violation
  unfolding create
  create_from_location analyzer violation_type severity l description o =
      create analyzer violation_type severity l.file l.line description
        (record o { column = l.column; end_line = l.end_line; end_column = l.end_column })

  -- The same with a dict in place of the location.
  unfoldable pub create_from_dict :
      Option String → String → GivenSeverity → Entries → String → Options → Result Violation
  unfolding create_from_location location_from_dict
  create_from_dict analyzer violation_type severity d description o = location_from_dict d >>= λ l.
      create_from_location analyzer violation_type severity l description o
