-- ===== src/Ldap/Settled.antt =====
-- The reconcile loop of nodejs/utils/ldap_reconcile.js comes to rest.
use theta_directory.Base.{
  ℕ, zero, suc, ◌≤◌, Bool, true, false, List, [], ◌∷◌, length, Option, none, some, Text, ◌≡◌, refl,
  sym, subst,
}
use theta_directory.Ldap.Loop.{
  Answer, Outcome, Pass, Loop, World, reconcile_replication, end_pass, fire, answer_of, look,
  outcome_of, finish, Reachable,
}
use theta_directory.Ldap.Current.{
  ended_at, ended_at-outcome_of, asked_at-answer_of, IsCovered, Holds, LoopHolds, run-Holds,
  with_pass, reachable-IsCurrent,
}

-- The calls that are due all run, as no other comes.
unfoldable pub fire_all : ℕ → World → World
fire_all zero w = w
fire_all (suc n) w = fire_all n (fire w)

-- A pass from where it stands to its end, whether there is a view and whether it can be applied.
abbrev pub one_pass : Bool × Bool → World → World
one_pass luck w = finish luck.1 (look luck.0 w)

-- The loop is at rest, and the last pass asked after the newest call.
abbrev pub IsSettled : World → Type 0
IsSettled w = (w.loop.in_flight ≡ none) × IsCovered w.called_at w.last

module _ (first second : Bool × Bool) (n called : ℕ) (was : Text) (last : Option Outcome) where
  covers :
      (luck : Bool × Bool) → called ≤ n → called ≤ ended_at (outcome_of luck.1 (answer_of luck.0 n))
  covers luck h =
      subst (λ m. called ≤ m) (sym (ended_at-outcome_of luck.1 (answer_of luck.0 n)))
        (subst (λ m. called ≤ m) (sym (asked_at-answer_of luck.0 n)) h)

  two_passes-IsSettled :
      (answer : Option Answer) (reason : Text) (dirty : Bool)
      → (called ≤ n)
        × Holds (some (record { reason = reason; answer = answer })) dirty called [] last
      → IsSettled (
          one_pass second (
            one_pass first (
              with_pass
                (some (record { reason = reason; answer = answer }))
                dirty
                was
                n
                []
                called
                last)))
  unfolding look finish end_pass
  two_passes-IsSettled none reason true h = (refl, (_, refl, covers second h.0))
  two_passes-IsSettled none reason false h = (refl, (_, refl, covers first h.0))
  two_passes-IsSettled (some a) reason true h = (refl, (_, refl, covers second h.0))
  two_passes-IsSettled (some a) reason false h = (
    refl,
    (_, refl, subst (λ m. called ≤ m) (sym (ended_at-outcome_of first.1 a)) (h.1 refl refl a refl)),
  )

  rest-IsSettled :
      (o : Option Pass) (dirty : Bool)
      → (called ≤ n) × Holds o dirty called [] last
      → IsSettled (one_pass second (one_pass first (with_pass o dirty was n [] called last)))
  unfolding look finish
  rest-IsSettled none dirty h = (refl, h.1.1 refl)
  rest-IsSettled (some p) dirty h = two_passes-IsSettled p.answer p.reason dirty h

fire_all-IsSettled :
    (first second : Bool × Bool) (n called : ℕ) (last : Option Outcome) (due : List Text) (l : Loop)
    → (called ≤ n) × LoopHolds l called due last
    → IsSettled (
        one_pass second (
          one_pass first (
            fire_all
              (length due)
              (record { loop = l; changes = n; due = due; called_at = called; last = last }))))
unfolding fire_all fire
fire_all-IsSettled first second n called last [] l h =
    rest-IsSettled first second n called l.dirty_reason last l.in_flight l.dirty h
fire_all-IsSettled first second n called last (reason ∷ rest) l h =
    fire_all-IsSettled first second n called last rest (reconcile_replication reason l) (
      h.0,
      run-Holds l.in_flight l.dirty l.dirty_reason reason called (reason ∷ rest) rest last h.1,
    )

-- Whatever happened, once the calls that are due have run and no other comes, the loop is at rest
-- after two passes, whether these get a view and can apply it or not, and the last pass that ended
-- asked for the cluster after the newest call was made.
pub reachable-IsSettled :
    (w : World) (first second : Bool × Bool)
    → Reachable w
    → IsSettled (one_pass second (one_pass first (fire_all (length w.due) w)))
reachable-IsSettled w first second reachable =
    fire_all-IsSettled first second w.changes w.called_at w.last w.due w.loop
      (reachable-IsCurrent w reachable)
