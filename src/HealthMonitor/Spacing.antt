-- ===== src/HealthMonitor/Spacing.antt =====
-- The distance between alerts in a list of them, and of operations that follow one another.
use claude_library.Prelude.{
  ℕ, ◌+◌, ◌≤◌, String, ◌≡◌, refl, ◌∙◌, ap, true, false, Option, none, some, List, [], ◌∷◌, ◌++◌,
  arith, if◌then◌else◌,
}
use claude_library.Prelude.Key.{◌=?◌, string_key}
use claude_library.Prelude.Dict.{lookup}
use claude_library.HealthMonitor.State.{HealthMonitor}
use claude_library.HealthMonitor.Monitor.{Alert}

-- An alert that begins at `t` keeps its distance from the end of the last one before it.
abbrev pub KeepsDistance : ℕ → Option ℕ → ℕ → Type 0
KeepsDistance cooldown none t = Unit
KeepsDistance cooldown (some last) t = last + cooldown ≤ t

-- The alerts of one name, the last of which before the list ended at `last`.
abbrev pub AreSpaced : ℕ → String → Option ℕ → List Alert → Type 0
AreSpaced cooldown name last [] = Unit
AreSpaced cooldown name last (a ∷ rest) =
    ((a.name =? name) ≡ true
      → KeepsDistance cooldown last a.begun × AreSpaced cooldown name (some a.ended) rest)
    × ((a.name =? name) ≡ false → AreSpaced cooldown name last rest)

abbrev pub last_of : String → Option ℕ → List Alert → Option ℕ
last_of name last [] = last
last_of name last (a ∷ rest) =
    let here = last_of name (some a.ended) rest in
    let past = last_of name last rest in if a.name =? name then here else past

pub AreSpaced-append :
    (cd : ℕ) (name : String) (last : Option ℕ) (xs ys : List Alert)
    → AreSpaced cd name last xs
    → AreSpaced cd name (last_of name last xs) ys
    → AreSpaced cd name last (xs ++ ys)
AreSpaced-append cd name last [] ys h k = k
AreSpaced-append cd name last (a ∷ xs) ys (h, g) k = (
  λ e.
      let q : last_of name last (a ∷ xs) ≡ last_of name (some a.ended) xs = rw e refl in
      ((h e).0, AreSpaced-append cd name (some a.ended) xs ys (h e).1 (rw⁻¹ q k)),
  λ e.
      let q : last_of name last (a ∷ xs) ≡ last_of name last xs = rw e refl in
      AreSpaced-append cd name last xs ys (g e) (rw⁻¹ q k),
)

last_of-append :
    (name : String) (last : Option ℕ) (xs ys : List Alert)
    → last_of name last (xs ++ ys) ≡ last_of name (last_of name last xs) ys
last_of-append name last [] ys = refl
last_of-append name last (a ∷ xs) ys =
    ground (arith, last_of-append name (some a.ended) xs ys, last_of-append name last xs ys)

-- An operation that sends its alerts in time, notes when they end, and keeps the cooldown.
pub record IsHonest (cd : ℕ) (m n : HealthMonitor) (alerts : List Alert) : Type 0 where
  pub spaced : (name : String) → AreSpaced cd name (lookup name m.last_alert_time) alerts
  pub noted :
      (name : String)
      → lookup name n.last_alert_time ≡ last_of name (lookup name m.last_alert_time) alerts
  pub config : n.alert_config.cooldown ≡ cd

pub silent :
    (cd : ℕ) (m n : HealthMonitor)
    → n.last_alert_time ≡ m.last_alert_time
    → n.alert_config.cooldown ≡ cd
    → IsHonest cd m n []
silent cd m n l c = record { spaced = λ name. tt; noted = λ name. ap (lookup name) l; config = c }

pub compose :
    (cd : ℕ) (m n o : HealthMonitor) (xs ys : List Alert)
    → IsHonest cd m n xs
    → IsHonest cd n o ys
    → IsHonest cd m o (xs ++ ys)
compose cd m n o xs ys v w = record {
  spaced = λ name.
      let w' = w.spaced name in
      AreSpaced-append cd name (lookup name m.last_alert_time) xs ys (v.spaced name)
        (rw⁻¹ (v.noted name) w');
  noted = λ name.
      rw (last_of-append name (lookup name m.last_alert_time) xs ys)
        (w.noted name ∙ ap (λ l. last_of name l ys) (v.noted name));
  config = w.config;
}
