-- ===== src/Ldap/Current.antt =====
-- The reconcile loop of nodejs/utils/ldap_reconcile.js loses no call.
use theta_directory.Base.{
  ℕ, ◌≤◌, Bool, true, false, List, [], ◌∷◌, ◌++◌, Option, none, some, Text, ◌≡◌, refl, sym, subst,
  none≢some, some-injective, arith,
}
use theta_directory.Ldap.Loop.{
  Answer, no_view, view_at, Outcome, saw_nothing, not_applied, applied, Pass, Loop, World,
  reconcile_replication, end_pass, fire, answer_of, look, outcome_of, finish, Step, changes, calls,
  fires, looks, finishes, Reachable, booted, after,
}

-- How often the cluster had changed when it was asked for.
abbrev pub asked_at : Answer → ℕ
asked_at (no_view n) = n
asked_at (view_at n) = n

-- The same of a pass that has ended; one that was applied or not saw the cluster as it was then.
abbrev pub ended_at : Outcome → ℕ
ended_at (saw_nothing n) = n
ended_at (not_applied n) = n
ended_at (applied n) = n

pub ended_at-outcome_of :
    (success : Bool) (a : Answer) → ended_at (outcome_of success a) ≡ asked_at a
unfolding outcome_of
ended_at-outcome_of success (no_view n) = refl
ended_at-outcome_of true (view_at n) = refl
ended_at-outcome_of false (view_at n) = refl

pub asked_at-answer_of : (found : Bool) (n : ℕ) → asked_at (answer_of found n) ≡ n
unfolding answer_of
asked_at-answer_of true n = refl
asked_at-answer_of false n = refl

not_nil : (xs : List Text) (r : Text) → xs ++ r ∷ [] ≡ [] → ⊥
not_nil [] r h = absurd (ground (arith, h))
not_nil (x ∷ xs) r h = absurd (ground (arith, h))

-- A pass that ended asked after the newest call.
abbrev pub IsCovered : ℕ → Option Outcome → Type 0
IsCovered called last = (o : Outcome) × (last ≡ some o) × (called ≤ ended_at o)

-- At rest nothing is left to run, and the last pass covers every call unless one is due; a pass that
-- has its answer covers them too, unless one is due or the loop is to run again.
abbrev pub Holds : Option Pass → Bool → ℕ → List Text → Option Outcome → Type 0
Holds none dirty called due last = (dirty ≡ false) × (due ≡ [] → IsCovered called last)
Holds (some p) dirty called due last =
    dirty ≡ false → due ≡ [] → (a : Answer) → p.answer ≡ some a → called ≤ asked_at a

abbrev pub IsCurrent : World → Type 0
IsCurrent w =
    (w.called_at ≤ w.changes) × Holds w.loop.in_flight w.loop.dirty w.called_at w.due w.last

call-Holds :
    (o : Option Pass) (dirty : Bool) (called new : ℕ) (due : List Text) (last : Option Outcome)
    (reason : Text)
    → Holds o dirty called due last
    → Holds o dirty new (due ++ reason ∷ []) last
call-Holds none dirty called new due last reason h =
    (h.0, λ empty. absurd (not_nil due reason empty))
call-Holds (some p) dirty called new due last reason h =
    λ clean empty a here. absurd (not_nil due reason empty)

-- What holds of the loop, whatever the cluster does.
abbrev pub LoopHolds : Loop → ℕ → List Text → Option Outcome → Type 0
LoopHolds l called due last = Holds l.in_flight l.dirty called due last

pub run-Holds :
    (o : Option Pass) (dirty : Bool) (was reason : Text) (called : ℕ) (due rest : List Text)
    (last : Option Outcome)
    → Holds o dirty called due last
    → LoopHolds
        (reconcile_replication reason (record { in_flight = o; dirty = dirty; dirty_reason = was }))
        called
        rest
        last
unfolding reconcile_replication
run-Holds none dirty was reason called due rest last h =
    λ clean empty a here. absurd (none≢some here)
run-Holds (some p) dirty was reason called due rest last h =
    λ clean empty a here. absurd (ground (arith, clean))

fire-Holds :
    (due : List Text) (l : Loop) (n called : ℕ) (last : Option Outcome)
    → (called ≤ n) × LoopHolds l called due last
    → IsCurrent
        (fire (record { loop = l; changes = n; due = due; called_at = called; last = last }))
unfolding fire
fire-Holds [] l n called last h = h
fire-Holds (reason ∷ rest) l n called last h =
    (h.0, run-Holds l.in_flight l.dirty l.dirty_reason reason called (reason ∷ rest) rest last h.1)

-- A world whose loop has this pass.
abbrev pub with_pass : Option Pass → Bool → Text → ℕ → List Text → ℕ → Option Outcome → World
with_pass o dirty was n due called last = record {
  loop = record { in_flight = o; dirty = dirty; dirty_reason = was };
  changes = n;
  due = due;
  called_at = called;
  last = last;
}

module _ (dirty : Bool) (was : Text) (n : ℕ) (due : List Text) (called : ℕ)
    (last : Option Outcome) where
  look_pass-IsCurrent :
      (found : Bool) (answer : Option Answer) (reason : Text)
      → IsCurrent (
          with_pass
            (some (record { reason = reason; answer = answer }))
            dirty
            was
            n
            due
            called
            last)
      → IsCurrent (
          look found (
            with_pass
              (some (record { reason = reason; answer = answer }))
              dirty
              was
              n
              due
              called
              last))
  unfolding look
  look_pass-IsCurrent found (some a) reason h = h
  look_pass-IsCurrent found none reason h = (
    h.0,
    λ clean empty a here.
        subst (λ b. called ≤ asked_at b) (some-injective here)
          (subst (λ m. called ≤ m) (sym (asked_at-answer_of found n)) h.0),
  )

  look-IsCurrent :
      (found : Bool) (o : Option Pass)
      → IsCurrent (with_pass o dirty was n due called last)
      → IsCurrent (look found (with_pass o dirty was n due called last))
  unfolding look
  look-IsCurrent found none h = h
  look-IsCurrent found (some p) h = look_pass-IsCurrent found p.answer p.reason h

finish_pass-IsCurrent :
    (success : Bool) (answer : Option Answer) (reason : Text) (dirty : Bool) (was : Text) (n : ℕ)
    (due : List Text) (called : ℕ) (last : Option Outcome)
    → IsCurrent
        (with_pass (some (record { reason = reason; answer = answer })) dirty was n due called last)
    → IsCurrent (
        finish success (
          with_pass
            (some (record { reason = reason; answer = answer }))
            dirty
            was
            n
            due
            called
            last))
unfolding finish end_pass
finish_pass-IsCurrent success none reason dirty was n due called last h = h
finish_pass-IsCurrent success (some a) reason true was n due called last h =
    (h.0, λ clean empty b here. absurd (none≢some here))
finish_pass-IsCurrent success (some a) reason false was n due called last h = (
  h.0,
  (
    refl,
    λ empty. (
      outcome_of success a,
      refl,
      subst (λ m. called ≤ m) (sym (ended_at-outcome_of success a)) (h.1 refl empty a refl),
    ),
  ),
)

finish-IsCurrent :
    (success : Bool) (o : Option Pass) (dirty : Bool) (was : Text) (n : ℕ) (due : List Text)
    (called : ℕ) (last : Option Outcome)
    → IsCurrent (with_pass o dirty was n due called last)
    → IsCurrent (finish success (with_pass o dirty was n due called last))
unfolding finish
finish-IsCurrent success none dirty was n due called last h = h
finish-IsCurrent success (some p) dirty was n due called last h =
    finish_pass-IsCurrent success p.answer p.reason dirty was n due called last h

Step-IsCurrent : {w x : World} → Step w x → IsCurrent w → IsCurrent x
Step-IsCurrent (changes w) h = (omega (arith, h.0), h.1)
Step-IsCurrent (calls w reason) h = (
  omega arith,
  call-Holds w.loop.in_flight w.loop.dirty w.called_at w.changes w.due w.last reason h.1,
)
Step-IsCurrent (fires w) h = fire-Holds w.due w.loop w.changes w.called_at w.last h
Step-IsCurrent (looks w found) h =
    look-IsCurrent w.loop.dirty w.loop.dirty_reason w.changes w.due w.called_at w.last found
      w.loop.in_flight h
Step-IsCurrent (finishes w success) h =
    finish-IsCurrent success w.loop.in_flight w.loop.dirty w.loop.dirty_reason w.changes w.due
      w.called_at w.last h

-- In any order of changes, calls and passes, whether they get a view and can apply it or not: at rest,
-- with no call due, the last pass that ended asked for the cluster after the newest call was made;
-- and so did a pass that has its answer, unless a call is due or the loop is to run again.
pub reachable-IsCurrent : (w : World) → Reachable w → IsCurrent w
reachable-IsCurrent w booted = (omega arith, (refl, λ empty. absurd (ground (arith, empty))))
reachable-IsCurrent w (after before step) = Step-IsCurrent step (reachable-IsCurrent _ before)
