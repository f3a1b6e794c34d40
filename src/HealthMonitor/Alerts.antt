-- ===== src/HealthMonitor/Alerts.antt =====
-- The time between two alerts.
use claude_library.Prelude.{
  ℕ, ◌+◌, ◌⊎◌, String, ◌≡◌, refl, Bool, true, Option, none, some, List, [], ◌∷◌, arith, inl, inr,
}
use mathlib.Core.Path.{subst}
use claude_library.Prelude.Key.{string_key}
use claude_library.Prelude.Dict.{values, lookup, insert, lookup-insert}
use claude_library.HealthMonitor.State.{
  HealthCheckResult, HealthCheckConfig, AlertConfig, HealthMonitor, create,
}
use claude_library.HealthMonitor.Monitor.{
  Alert, AlertCall, taken, add_check, add_http_check, remove_check, should_alert, send_alert,
  handle_result, clock_after, accept, process, start_monitoring, stop_monitoring, cooled,
}
use claude_library.HealthMonitor.Schedule.{
  Event, adds, adds_http, removes, finishes, finishes_all, starts, stops, apply, alerts_of,
}
use claude_library.HealthMonitor.Spacing.{
  KeepsDistance, AreSpaced, AreSpaced-append, IsHonest, silent, compose,
}

distance : (cd now : ℕ) (o : Option ℕ) → cooled cd now o ≡ true → KeepsDistance cd o now
distance cd now none h = tt
distance cd now (some last) h = ground arith

module _ (cd now : ℕ) (calls : String → AlertCall) (m : HealthMonitor)
    (c : m.alert_config.cooldown ≡ cd) where
  abbrev alert : HealthCheckResult → Alert
  alert r = record {
    name = r.name;
    state = r.state;
    message = r.message;
    begun = now;
    ended = now + taken (calls r.name);
  }

  handle_alerts :
      (r : HealthCheckResult)
      → ((handle_result now calls r m).1 ≡ [])
        ⊎ (((handle_result now calls r m).1 ≡ alert r ∷ [])
            × (cooled m.alert_config.cooldown now (lookup r.name m.last_alert_time) ≡ true))
  unfolding handle_result should_alert send_alert
  handle_alerts r = ground arith

  one_alert :
      (r : HealthCheckResult) (name : String)
      → cooled m.alert_config.cooldown now (lookup r.name m.last_alert_time) ≡ true
      → AreSpaced cd name (lookup name m.last_alert_time) (alert r ∷ [])
  one_alert r name h = (
    λ e.
        let same : r.name ≡ name = (string_key.beq_iff r.name name).0 e in
        let d = distance m.alert_config.cooldown now (lookup r.name m.last_alert_time) h in
        (
          subst (λ k. KeepsDistance k (lookup name m.last_alert_time) now) c
              (subst (λ k. KeepsDistance m.alert_config.cooldown (lookup k m.last_alert_time) now)
                same d),
          tt,
        ),
    λ e. tt,
  )

  handle-IsHonest :
      (r : HealthCheckResult)
      → IsHonest cd m (handle_result now calls r m).0 (handle_result now calls r m).1
  unfolding handle_result should_alert send_alert
  handle-IsHonest r = record {
    spaced =
        λ name. elim (handle_alerts r) [ inl e ↦ rw e tt | inr (e, h) ↦ rw e (one_alert r name h) ];
    noted = λ name.
        ground (arith, lookup-insert r.name name (now + taken (calls r.name)) m.last_alert_time);
    config = ground (arith, c);
  }

-- Only the alerts and their times matter.
same-IsHonest :
    (cd : ℕ) (l m n : HealthMonitor) (xs : List Alert)
    → l.last_alert_time ≡ m.last_alert_time
    → IsHonest cd m n xs
    → IsHonest cd l n xs
same-IsHonest cd l m n xs e v = record {
  spaced = λ name. rw e (v.spaced name);
  noted = λ name. rw e (v.noted name);
  config = v.config;
}

accept-IsHonest :
    (cd now : ℕ) (calls : String → AlertCall) (name : String) (r : HealthCheckResult)
    (m : HealthMonitor)
    → m.alert_config.cooldown ≡ cd
    → IsHonest cd m (accept now calls name r m).0 (accept now calls name r m).1
unfolding accept
accept-IsHonest cd now calls name r m c =
    let l : HealthMonitor = record m { results = insert name r m.results } in
    same-IsHonest cd m l (handle_result now calls r l).0 (handle_result now calls r l).1 refl
      (handle-IsHonest cd now calls l c r)

process-IsHonest :
    (cd now : ℕ) (calls : String → AlertCall) (cs : List HealthCheckConfig)
    (rs : List HealthCheckResult) (m : HealthMonitor)
    → m.alert_config.cooldown ≡ cd
    → IsHonest cd m (process now calls cs rs m).0 (process now calls cs rs m).1
unfolding process
process-IsHonest cd now calls [] rs m c = silent cd m m refl c
process-IsHonest cd now calls (k ∷ cs) [] m c = silent cd m m refl c
process-IsHonest cd now calls (k ∷ cs) (r ∷ rs) m c =
    let (n, alerts) = accept now calls k.name r m in
    let next = clock_after now calls r m in
    let (o, more) = process next calls cs rs n in
    let v = accept-IsHonest cd now calls k.name r m c in
    compose cd m n o alerts more v (process-IsHonest cd next calls cs rs n v.config)

apply-IsHonest :
    (cd now : ℕ) (e : Event) (m : HealthMonitor)
    → m.alert_config.cooldown ≡ cd
    → IsHonest cd m (apply now e m).0 (apply now e m).1
unfolding apply add_check add_http_check remove_check start_monitoring stop_monitoring
apply-IsHonest cd now (adds k) m c = silent cd m _ refl c
apply-IsHonest cd now (adds_http k) m c = silent cd m _ (ground arith) (ground (arith, c))
apply-IsHonest cd now (removes name) m c = silent cd m _ (ground arith) (ground (arith, c))
apply-IsHonest cd now (finishes calls name r) m c = accept-IsHonest cd now calls name r m c
apply-IsHonest cd now (finishes_all calls rs) m c =
    process-IsHonest cd now calls (values m.checks) rs m c
apply-IsHonest cd now starts m c = silent cd m _ refl c
apply-IsHonest cd now stops m c = silent cd m _ refl c

alerts_from_spaced :
    (cd : ℕ) (name : String) (s : List (ℕ × Event)) (m : HealthMonitor)
    → m.alert_config.cooldown ≡ cd
    → AreSpaced cd name (lookup name m.last_alert_time) (alerts_of s m)
unfolding alerts_of
alerts_from_spaced cd name [] m c = tt
alerts_from_spaced cd name ((now, e) ∷ s) m c =
    let v = apply-IsHonest cd now e m c in
    let rest = alerts_from_spaced cd name s (apply now e m).0 v.config in
    AreSpaced-append cd name (lookup name m.last_alert_time) (apply now e m).1 _ (v.spaced name)
      (rw⁻¹ (v.noted name) rest)

-- With an alert function that is not a coroutine, whatever results the checks have, in whatever order
-- they are handled, and whatever is added and removed: of two alerts for the same name that follow one
-- another, the second begins at least the cooldown after the end of the first.
pub alerts_spaced :
    (available : Bool) (config : AlertConfig) (s : List (ℕ × Event)) (name : String)
    → AreSpaced config.cooldown name none (alerts_of s (create available (some config)))
unfolding create lookup
alerts_spaced available config s name =
    alerts_from_spaced config.cooldown name s (create available (some config)) refl
