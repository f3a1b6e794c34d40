-- ===== src/Violations/Tests.antt =====
-- Violations on concrete inputs, and the theorems about them at inputs that meet their hypotheses.
use claude_library.Prelude.{
  ◌≡◌, refl, String, true, false, not, ◌&&◌, none, some, [], ◌∷◌, arith, filter,
}
use claude_library.Prelude.Int.{pos, leb_ℤ}
use claude_library.Prelude.Key.{◌=?◌, string_key}
use claude_library.Prelude.Dict.{lookup}
use claude_library.Prelude.Sort.{sorted, place}
use claude_library.Violations.State.{critical, high, low, ok, by_name, text, done, entry, Violation}
use claude_library.Violations.Records.{to_list, from_list}
use claude_library.Violations.Factory.{defaults, valid_severity, create}
use claude_library.Violations.Collection.{
  ViolationCollection, sort_by_severity, has_blocking, group_by_file, group_by_type,
}
use claude_library.Violations.Lookup.{IsPlain}
use claude_library.Violations.RoundTrip.{from_list-to_list}
use claude_library.Violations.Groups.{joined, groups_are_filters}
use claude_library.Violations.Creation.{succeeded, create_succeeds}

abbrev unused : Violation
unused = record {
  violation_type = "unused-import";
  severity = low;
  location = record {
    file = "app.py";
    line = pos 10;
    column = pos 0;
    end_line = none;
    end_column = some (pos 9);
  };
  description = "Unused import 'os'";
  recommendation = some "Remove it";
  code_snippet = none;
  context = entry "import_name" (text "os") done;
  rule_id = none;
  analyzer = some "my-linter";
}

abbrev injection : Violation
injection = record unused {
  violation_type = "security-injection";
  severity = critical;
  description = "Query built from input";
}

abbrev report : ViolationCollection
report = injection ∷ unused ∷ []

abbrev same_text : String → String
same_text t = t

IsPlain-unused : IsPlain unused
IsPlain-unused = record {
  typed = λ e. absurd (cc e);
  described = λ e. absurd (cc e);
  filed = λ e. absurd (cc e);
  line = omega arith;
  column = omega arith;
  recommended = λ e. absurd (cc e);
  quoted = λ e. absurd (cc e);
  ruled = λ e. absurd (cc e);
  analysed = λ e. absurd (cc e);
}

from_list-to_list_example : from_list same_text (to_list (unused ∷ [])) ≡ ok (unused ∷ [])
from_list-to_list_example =
    from_list-to_list same_text (unused ∷ []) (λ s. refl) (IsPlain-unused, tt)

-- With `descending`, which is the default, the critical violation comes last.
sort-report : sort_by_severity true report ≡ unused ∷ injection ∷ []
unfolding sort_by_severity sorted place
sort-report = refl

-- A critical violation alone does not block, a low one does.
has_blocking-critical :
    (has_blocking high (injection ∷ []) ≡ false) × (has_blocking high (unused ∷ []) ≡ true)
unfolding has_blocking
has_blocking-critical = (refl, refl)

groups_are_filters_example :
    (lookup "app.py" (group_by_file report)
      ≡ joined none (filter (λ (v : Violation). v.location.file =? "app.py") report))
    × (lookup "app.py" (group_by_type report)
        ≡ joined none (filter (λ (v : Violation). v.violation_type =? "app.py") report))
groups_are_filters_example = groups_are_filters report "app.py"

abbrev kind : String
kind = "todo"

abbrev path : String
path = "app.py"

abbrev message : String
message = "Open"

create_succeeds_example :
    succeeded (create same_text same_text none kind (by_name "low") path (pos 3) message defaults)
    ≡ (not (kind =? "")
        && not (path =? "")
        && not (message =? "")
        && valid_severity same_text same_text (by_name "low")
        && leb_ℤ (pos 0) (pos 3)
        && leb_ℤ (pos 0) (pos 0))
create_succeeds_example =
    create_succeeds same_text same_text (λ s. refl) none kind (by_name "low") path (pos 3) message
      defaults
