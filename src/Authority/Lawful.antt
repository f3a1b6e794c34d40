-- ===== src/Authority/Lawful.antt =====
-- What holds of every record of decisions.
use mathlib.Core.Path.{subst}
use claude_library.Prelude.{
  ◌⊎◌, ℕ, ◌+◌, ◌≤◌, ◌<◌, ◌≡◌, ◌≢◌, ap, sym, ◌∙◌, String, Option, none, some, List, [], ◌∷◌, ◌++◌,
  arith, ltb, All, All-append, Bool-cases, Option-cases, inl, inr,
}
use claude_library.Prelude.Key.{string_key, ◌=?◌}
use claude_library.Authority.State.{
  AuthorityLevel, human, value, level_key, DecisionId, id_key, Decision, Ownership,
  DecisionAuthority,
}
use claude_library.Authority.Decisions.{get_owner, make_decision, find, update}

-- The level of an owner that may be missing.
abbrev pub rank : Option AuthorityLevel → ℕ
rank none = 0
rank (some l) = value l

pub record IsSound (o : Ownership) (counter : ℕ) (d : Decision) : Type 0 where
  -- Whoever decided owns the target or stands above its owner.
  pub entitled : rank (get_owner d.target o) ≤ value d.authority_level
  -- Only a higher level has vetoed it, and has said why.
  pub vetoed_above : (l : AuthorityLevel) → d.vetoed_by ≡ some l → value d.authority_level < value l
  pub explained :
      (l : AuthorityLevel)
      → d.vetoed_by ≡ some l
      → (r : String) × (d.veto_reason ≡ some r) × (r ≢ "")
  -- Only a human has overridden it.
  pub by_human : (l : AuthorityLevel) → d.overridden_by ≡ some l → l ≡ human
  pub counted : d.id.number ≤ counter

-- The counts of the decisions go up, so that no identifier stands twice.
abbrev pub IsRising : ℕ → List Decision → Type 0
IsRising k [] = Unit
IsRising k (d ∷ ds) = (k < d.id.number) × IsRising d.id.number ds

pub record IsLawful (a : DecisionAuthority) : Type 0 where
  pub sound : All (IsSound a.ownership a.decision_counter) a.decisions
  pub rising : IsRising 0 a.decisions

IsSound-later :
    (o : Ownership) (k : ℕ) (ds : List Decision) → All (IsSound o k) ds → All (IsSound o (k + 1)) ds
IsSound-later o k [] a = tt
IsSound-later o k (d ∷ ds) (a, rest) = (
  record {
    entitled = a.entitled;
    vetoed_above = a.vetoed_above;
    explained = a.explained;
    by_human = a.by_human;
    counted = omega (arith, a.counted);
  },
  IsSound-later o k ds rest,
)

IsRising-append :
    (o : Ownership) (j k : ℕ) (ds : List Decision) (d : Decision)
    → j ≤ k
    → All (IsSound o k) ds
    → IsRising j ds
    → k < d.id.number
    → IsRising j (ds ++ d ∷ [])
IsRising-append o j k [] d h a r m = (omega arith, tt)
IsRising-append o j k (x ∷ ds) d h (s, a) (p, r) m =
    (p, IsRising-append o x.id.number k ds d s.counted a r m)

-- The decision that is recorded where the level may decide.
abbrev recorded :
    ℕ → AuthorityLevel → String → String → String → DecisionAuthority → DecisionAuthority
recorded now level action target reason a = record a {
  decisions = a.decisions ++ new ∷ [];
  decision_counter = a.decision_counter + 1;
}
  where
    new : Decision
    new = record {
      id = record { stamp = now; number = a.decision_counter + 1 };
      authority_level = level;
      action = action;
      target = target;
      reason = reason;
      veto_reason = none;
      override_reason = none;
      vetoed_by = none;
      overridden_by = none;
    }

make_decision-cases :
    (now : ℕ) (level : AuthorityLevel) (action target reason : String) (a : DecisionAuthority)
    → ((rank (get_owner target a.ownership) ≤ value level)
        × ((make_decision now level action target reason a).1
            ≡ recorded now level action target reason a))
      ⊎ ((make_decision now level action target reason a).1 ≡ a)
unfolding make_decision
make_decision-cases now level action target reason a =
    elim (Option-cases (get_owner target a.ownership)) [
      | inl e ↦ inl (ground (arith, e), ground (arith, e))
      | inr (owner, e) ↦ elim (Bool-cases (ltb (value level) (value owner))) [
        | inl q ↦ inr (ground (arith, e, q))
        | inr q ↦ inl (ground (arith, e, q), ground (arith, e, q))
      ]
    ]

recorded-IsLawful :
    (now : ℕ) (level : AuthorityLevel) (action target reason : String) (a : DecisionAuthority)
    → rank (get_owner target a.ownership) ≤ value level
    → IsLawful a
    → IsLawful (recorded now level action target reason a)
recorded-IsLawful now level action target reason a h v = record {
  sound =
      All-append (IsSound a.ownership (a.decision_counter + 1)) a.decisions _
        (IsSound-later a.ownership a.decision_counter a.decisions v.sound)
        (
          record {
            entitled = h;
            vetoed_above = λ l e. absurd (cc e);
            explained = λ l e. absurd (cc e);
            by_human = λ l e. absurd (cc e);
            counted = omega arith;
          },
          tt,
        );
  rising =
      IsRising-append a.ownership 0 a.decision_counter a.decisions _ (omega arith) v.sound v.rising
        (omega arith);
}

pub make_decision-IsLawful :
    (now : ℕ) (level : AuthorityLevel) (action target reason : String) (a : DecisionAuthority)
    → IsLawful a
    → IsLawful (make_decision now level action target reason a).1
make_decision-IsLawful now level action target reason a v =
    elim (make_decision-cases now level action target reason a) [
      | inl (h, e) ↦ subst IsLawful (sym e) (recorded-IsLawful now level action target reason a h v)
      | inr e ↦ subst IsLawful (sym e) v
    ]

-- The first decision of an identifier is replaced, by one with the same identifier.
pub update-All :
    (P : Decision → Type 0) (id : DecisionId) (e : Decision) (ds : List Decision)
    → P e
    → All P ds
    → All P (update id e ds)
unfolding update
update-All P id e [] p a = tt
update-All P id e (d ∷ ds) p (q, a) = elim (Bool-cases (d.id =? id)) [
  | inl h ↦ rw h (p, a)
  | inr h ↦ rw h (q, update-All P id e ds p a)
]

pub update-IsRising :
    (k : ℕ) (id : DecisionId) (e : Decision) (ds : List Decision)
    → e.id ≡ id
    → IsRising k ds
    → IsRising k (update id e ds)
unfolding update
update-IsRising k id e [] h r = tt
update-IsRising k id e (d ∷ ds) h (p, r) = elim (Bool-cases (d.id =? id)) [
  | inl q ↦ rw q (
    ground (arith, p, r, h, q, id_key.beq_iff d.id id),
    subst (λ (i : DecisionId). IsRising i.number ds) ((id_key.beq_iff d.id id).0 q ∙ sym h) r,
  )
  | inr q ↦ rw q (p, update-IsRising d.id.number id e ds h r)
]

pub some_inj : (x y : Decision) → some x ≡ some y → x ≡ y
some_inj x y e = cc e

pub find-All :
    (P : Decision → Type 0) (id : DecisionId) (d : Decision) (ds : List Decision)
    → All P ds
    → find id ds ≡ some d
    → P d × (d.id ≡ id)
unfolding find
find-All P id d [] a h = absurd (cc h)
find-All P id d (x ∷ ds) (p, a) h = elim (Bool-cases (x.id =? id)) [
  | inl q ↦
      let e : x ≡ d = some_inj x d (ground (arith, q, h)) in
      (subst P e p, ap (λ k. k.id) (sym e) ∙ (id_key.beq_iff x.id id).0 q)
  | inr q ↦ find-All P id d ds a (ground (arith, q, h))
]
