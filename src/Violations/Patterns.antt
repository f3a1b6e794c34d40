-- ===== src/Violations/Patterns.antt =====
-- The methods of `ViolationFactory` for frequent patterns. `upper` is the method of `str`, `show` is
-- `str` of an int.
use claude_library.Prelude.{String, Option, none, some, if◌then◌else◌}
use Prim.Native.String.{◌++◌}
use claude_library.Prelude.Int.{ℤ, pos, ◌+ℤ◌, ◌-ℤ◌, ltb_ℤ, leb_ℤ}
use claude_library.Prelude.Key.{◌=?◌, string_key}
use claude_library.Violations.State.{
  Result, by_name, Value, text, number, Entries, done, entry, Violation,
}
use claude_library.Violations.Factory.{defaults, create}

module _ (lower strip : String → String) where
  unfoldable pub create_unused_import : Option String → String → ℤ → String → ℤ → Result Violation
  unfolding create
  create_unused_import analyzer file line import_name column =
      create lower strip analyzer "unused-import" (by_name "low") file line
        ("Unused import '" ++ import_name ++ "'")
        (record defaults {
          column = column;
          recommendation = some ("Remove the unused import '" ++ import_name ++ "'");
          context = entry "import_name" (text import_name) done;
          rule_id = some "UNUSED-IMPORT";
        })

  abbrev pub complexity_severity : ℤ → String
  complexity_severity excess =
      if leb_ℤ (pos 10) excess
      then "critical"
      else if leb_ℤ (pos 5) excess
      then "high"
      else "medium"

  unfoldable pub create_complexity_violation :
      (ℤ → String) → Option String → String → ℤ → String → ℤ → ℤ → ℤ → Result Violation
  unfolding create
  create_complexity_violation show analyzer file line function_name complexity threshold column =
      create lower strip analyzer "high-complexity"
        (by_name (complexity_severity (complexity -ℤ threshold))) file line
        ("Function '"
          ++ function_name
          ++ "' has complexity "
          ++ show complexity
          ++ " (threshold: "
          ++ show threshold
          ++ ")")
        (record defaults {
          column = column;
          recommendation =
              some "Consider breaking this function into smaller, more focused functions";
          context =
              entry "function_name" (text function_name) (
                entry "complexity" (number complexity) (entry "threshold" (number threshold) done));
          rule_id = some "COMPLEXITY";
        })

  unfoldable pub create_missing_type_hint :
      Option String → String → ℤ → String → String → ℤ → Result Violation
  unfolding create
  create_missing_type_hint analyzer file line element_name missing_types column =
      create lower strip analyzer "missing-type-hint" (by_name "medium") file line
        ("'" ++ element_name ++ "' is missing type hints: " ++ missing_types)
        (record defaults {
          column = column;
          recommendation = some "Add explicit type hints for better code clarity and IDE support";
          context =
              entry "element_name" (text element_name)
                (entry "missing_types" (text missing_types) done);
          rule_id = some "TYPE-HINT";
        })

  -- `display` is `str` of the literal.
  unfoldable pub create_magic_literal :
      (Value → String) → Option String → String → ℤ → Value → String → ℤ → Result Violation
  unfolding create
  create_magic_literal display analyzer file line literal_value literal_type column =
      create lower strip analyzer "magic-literal" (by_name "medium") file line
        ("Magic "
          ++ literal_type
          ++ " literal '"
          ++ display literal_value
          ++ "' should be a named constant")
        (record defaults {
          column = column;
          recommendation =
              some "Extract this literal to a module-level constant with a descriptive name";
          context =
              entry "literal_value" literal_value (entry "literal_type" (text literal_type) done);
          rule_id = some "MAGIC-LITERAL";
        })

  unfoldable pub create_too_many_parameters :
      (ℤ → String) → Option String → String → ℤ → String → ℤ → ℤ → ℤ → Result Violation
  unfolding create
  create_too_many_parameters show analyzer file line function_name param_count threshold column =
      create lower strip analyzer "too-many-parameters"
        (by_name (if ltb_ℤ (threshold +ℤ pos 2) param_count then "high" else "medium")) file line
        ("Function '"
          ++ function_name
          ++ "' has "
          ++ show param_count
          ++ " parameters (threshold: "
          ++ show threshold
          ++ ")")
        (record defaults {
          column = column;
          recommendation =
              some
                "Consider using a parameter object, keyword arguments, or breaking the function into smaller pieces";
          context = entry "function_name" (text function_name) (
              entry "param_count" (number param_count) (entry "threshold" (number threshold) done));
          rule_id = some "PARAM-COUNT";
        })

  -- An empty CWE identifier counts as none.
  abbrev pub cwe_entry : Option String → Entries
  cwe_entry none = done
  cwe_entry (some c) = if c =? "" then done else entry "cwe_id" (text c) done

  abbrev pub security_rule : (String → String) → String → Option String → String
  security_rule upper kind none = "SEC-" ++ upper kind
  security_rule upper kind (some c) = if c =? "" then "SEC-" ++ upper kind else c

  unfoldable pub create_security_violation :
      (String → String)
      → Option String
      → String
      → ℤ
      → String
      → String
      → String
      → ℤ
      → Option String
      → Result Violation
  unfolding create
  create_security_violation upper analyzer file line kind description recommendation column cwe_id =
      create lower strip analyzer ("security-" ++ kind) (by_name "critical") file line description
        (record defaults {
          column = column;
          recommendation = some recommendation;
          context = entry "vulnerability_type" (text kind) (cwe_entry cwe_id);
          rule_id = some (security_rule upper kind cwe_id);
        })
