-- ===== src/HealthMonitor/Streaks.antt =====
-- The failures that an alert needs.
use claude_library.Prelude.{
  ℕ, ◌+◌, ◌≤◌, String, ◌≡◌, ◌≢◌, refl, ◌∙◌, ap, Bool, true, some, List, [], ◌∷◌, ◌++◌, arith,
  if◌then◌else◌,
}
use claude_library.Prelude.Key.{◌=?◌, string_key, beq_refl}
use claude_library.Prelude.Dict.{lookup, lookup-insert}
use claude_library.HealthMonitor.State.{
  unhealthy, health_key, HealthCheckResult, AlertConfig, HealthMonitor, create,
}
use claude_library.HealthMonitor.Monitor.{
  AlertCall, count_of, should_alert, send_alert, handle_result,
}

-- The unhealthy results of a name since its last result of another kind, `n` of them before the list.
abbrev pub streak : String → ℕ → List HealthCheckResult → ℕ
streak name n [] = n
streak name n (r ∷ rs) =
    let failing = streak name (n + 1) rs in
    let fine = streak name 0 rs in
    let other = streak name n rs in
    if r.name =? name then (if r.state =? unhealthy then failing else fine) else other

-- The results that a monitor has handled, each at its time.
unfoldable pub handled :
    (String → AlertCall) → List (ℕ × HealthCheckResult) → HealthMonitor → HealthMonitor
unfolding handle_result
handled calls [] m = m
handled calls ((now, r) ∷ rs) m = handled calls rs (handle_result now calls r m).0

abbrev pub results_in : List (ℕ × HealthCheckResult) → List HealthCheckResult
results_in [] = []
results_in ((now, r) ∷ rs) = r ∷ results_in rs

module _ (calls : String → AlertCall) where
  count-handle_result :
      (name : String) (now : ℕ) (r : HealthCheckResult) (m : HealthMonitor)
      → count_of name (handle_result now calls r m).0.consecutive_failures
        ≡ streak name (count_of name m.consecutive_failures) (r ∷ [])
  unfolding handle_result send_alert
  count-handle_result name now r m =
      let f = count_of r.name m.consecutive_failures in
      let same = λ (e : (r.name =? name) ≡ true).
        ap (λ k. count_of k m.consecutive_failures) ((string_key.beq_iff r.name name).0 e) in
      ground (
        arith,
        lookup-insert r.name name 0 m.consecutive_failures,
        lookup-insert r.name name (f + 1) m.consecutive_failures,
        same,
      )

  config-handle_result :
      (now : ℕ) (r : HealthCheckResult) (m : HealthMonitor)
      → (handle_result now calls r m).0.alert_config ≡ m.alert_config
  unfolding handle_result send_alert
  config-handle_result now r m = ground arith

  config-handled :
      (rs : List (ℕ × HealthCheckResult)) (m : HealthMonitor)
      → (handled calls rs m).alert_config ≡ m.alert_config
  unfolding handled
  config-handled [] m = refl
  config-handled ((now, r) ∷ rs) m =
      config-handled rs (handle_result now calls r m).0 ∙ config-handle_result now r m

  count-handled :
      (name : String) (rs : List (ℕ × HealthCheckResult)) (m : HealthMonitor)
      → count_of name (handled calls rs m).consecutive_failures
        ≡ streak name (count_of name m.consecutive_failures) (results_in rs)
  unfolding handled
  count-handled name [] m = refl
  count-handled name ((now, r) ∷ rs) m =
      count-handled name rs (handle_result now calls r m).0
      ∙ ap (λ n. streak name n (results_in rs)) (count-handle_result name now r m)
      ∙ ground arith

  -- An alert goes out for an unhealthy result, which with the failures before it reaches the threshold.
  alert_counts :
      (now : ℕ) (r : HealthCheckResult) (m : HealthMonitor)
      → (handle_result now calls r m).1 ≢ []
      → (m.alert_config.consecutive_failures_threshold ≤ count_of r.name m.consecutive_failures + 1)
        × (r.state ≡ unhealthy)
  unfolding handle_result send_alert should_alert
  alert_counts now r m h =
      let f = count_of r.name m.consecutive_failures in
      ground (
        arith,
        h,
        lookup-insert r.name r.name (f + 1) m.consecutive_failures,
        beq_refl r.name,
        health_key.beq_iff r.state unhealthy,
      )

streak-append :
    (name : String) (n : ℕ) (xs ys : List HealthCheckResult)
    → streak name n (xs ++ ys) ≡ streak name (streak name n xs) ys
streak-append name n [] ys = refl
streak-append name n (x ∷ xs) ys = ground (
  arith,
  streak-append name (n + 1) xs ys,
  streak-append name 0 xs ys,
  streak-append name n xs ys,
)

-- An alert is sent only when the last results of its name, the present one included, are unhealthy, as
-- many of them in a row as the threshold asks for.
pub alert_needs_streak :
    (available : Bool) (config : AlertConfig) (calls : String → AlertCall)
    (rs : List (ℕ × HealthCheckResult)) (now : ℕ) (r : HealthCheckResult)
    → (handle_result now calls r (handled calls rs (create available (some config)))).1 ≢ []
    → config.consecutive_failures_threshold ≤ streak r.name 0 (results_in rs ++ r ∷ [])
unfolding create lookup
alert_needs_streak available config calls rs now r h =
    let m = handled calls rs (create available (some config)) in
    let (enough, bad) = alert_counts calls now r m h in
    let c = config-handled calls rs (create available (some config)) in
    let n = count-handled calls r.name rs (create available (some config)) in
    let a = streak-append r.name 0 (results_in rs) (r ∷ []) in
    ground (arith, enough, bad, ap (λ k. k.consecutive_failures_threshold) c, n, a, beq_refl r.name)
