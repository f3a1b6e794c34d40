-- ===== src/Authority/Tests.antt =====
-- A record of two decisions at concrete values.
use claude_library.Prelude.{
  ◌≤◌, ◌<◌, ◌≡◌, ◌≢◌, ◌⊎◌, refl, String, none, some, List, [], ◌∷◌, map, if◌then◌else◌,
}
use claude_library.Prelude.Key.{string_key, ◌=?◌}
use claude_library.Prelude.Sets.{elem_of}
use claude_library.Authority.State.{
  loop1, loop3, human, harness, value, DecisionId, id_key, Decision, not_owner, no_reason,
  not_found, not_above, allowed, blocked, DecisionAuthority,
}
use claude_library.Authority.Decisions.{init, make_decision, get_decision, veto, get_owner}
use claude_library.Authority.Lawful.{IsLawful}
use claude_library.Authority.Vetoes.{with_veto, veto_decides}
use claude_library.Authority.Run.{Operation, makes, vetoes, overrides, run, run-IsLawful}

abbrev risky : String
risky = "too risky"

abbrev first : DecisionId
first = record { stamp = 100; number = 1 }

abbrev second : DecisionId
second = record { stamp = 100; number = 2 }

-- A veto that is allowed, one from a level too low, and an override of the harness.
abbrev operations : List Operation
operations =
    makes 100 loop3 "propose" "learning_rate" "faster"
    ∷ makes 100 harness "reject" "quality_thresholds" "too low"
    ∷ makes 100 loop1 "modify" "harness_weights" ""
    ∷ vetoes first human "too risky"
    ∷ vetoes second human "disagree"
    ∷ overrides second human "exception"
    ∷ []

run-IsLawful_example : IsLawful (run operations (init none))
run-IsLawful_example = run-IsLawful none operations

abbrev proposal : Decision
proposal = record {
  id = first;
  authority_level = loop3;
  action = "propose";
  target = "learning_rate";
  reason = "faster";
  veto_reason = none;
  override_reason = none;
  vetoed_by = none;
  overridden_by = none;
}

abbrev rejection : Decision
rejection = record proposal {
  id = second;
  authority_level = harness;
  action = "reject";
  target = "quality_thresholds";
  reason = "too low";
}

abbrev authority : DecisionAuthority
authority = record {
  ownership = (loop3, "learning_rate" ∷ []) ∷ [];
  decisions = proposal ∷ rejection ∷ [];
  decision_counter = 2;
  veto_callbacks = 7 ∷ [];
  override_callbacks = [];
}

not_entitled :
    (make_decision 100 loop1 "modify" "learning_rate" "" authority).0
    ≡ blocked not_owner (some loop3)
unfolding make_decision get_owner elem_of
not_entitled = refl

veto_decides_example :
    let (result, b, notices) = veto first human risky authority in
    ((d : Decision) × (get_decision first authority ≡ some d)
      × (risky ≢ "")
      × (value d.authority_level < 3)
      × (result ≡ allowed (with_veto human risky d))
      × (notices ≡ map (λ c. record { callback = c; decision = with_veto human risky d }) (7 ∷ []))
      × ((j : DecisionId)
          → get_decision j b
            ≡ (if first =? j then some (with_veto human risky d) else get_decision j authority)))
    ⊎ ((b ≡ authority)
        × (notices ≡ [])
        × (((risky ≡ "") × (result ≡ blocked no_reason none))
            ⊎ (((risky ≢ "")
                  × (get_decision first authority ≡ none)
                  × (result ≡ blocked not_found none))
                ⊎ ((d : Decision) × (get_decision first authority ≡ some d)
                    × (risky ≢ "")
                    × (3 ≤ value d.authority_level)
                    × (result ≡ blocked not_above (some d.authority_level))))))
veto_decides_example = veto_decides first human risky authority
