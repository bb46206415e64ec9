-- ===== src/Ldap/Loop.antt =====
-- The reconcile loop of nodejs/utils/ldap_reconcile.js and the events that it meets. A state of the
-- cluster is known by the number of changes before it.
use theta_directory.Base.{
  ℕ, suc, Bool, true, false, List, [], ◌∷◌, ◌++◌, Option, none, some, Text, codes, or_text,
}

-- What `desiredConfig` came to: no view of the cluster (null, or an error), or the view that there
-- was after so many changes. The number of `no_view` is when it was asked for.
pub data Answer : Type 0 where
  no_view : ℕ → Answer
  view_at : ℕ → Answer

-- How a pass ends: without a view, with one that could not be applied, or with one that was.
pub data Outcome : Type 0 where
  saw_nothing : ℕ → Outcome
  not_applied : ℕ → Outcome
  applied : ℕ → Outcome

-- `onePass`: its reason, and the answer once there is one.
pub record Pass : Type 0 where
  pub reason : Text
  pub answer : Option Answer

-- The variables `inFlight`, `dirty` and `dirtyReason`.
pub record Loop : Type 0 where
  pub in_flight : Option Pass
  pub dirty : Bool
  pub dirty_reason : Text

-- The loop; how often the cluster has changed; the calls of `reconcileSoon` that are still due; how
-- often it had changed when the newest call was made; and how the last pass ended.
pub record World : Type 0 where
  pub loop : Loop
  pub changes : ℕ
  pub due : List Text
  pub called_at : ℕ
  pub last : Option Outcome

unfoldable pub reconcile_replication : Text → Loop → Loop
reconcile_replication reason l = elim l.in_flight [
  | some p ↦ record l { dirty = true; dirty_reason = reason }
  | none ↦ record l { in_flight = some (record { reason = reason; answer = none }) }
]

-- What the loop does when a pass has ended; no other event comes between its `break` and the
-- `finally`.
unfoldable pub end_pass : Loop → Loop
end_pass l = elim l.in_flight [
  | none ↦ l
  | some p ↦ elim l.dirty [
    | true ↦ record l {
      in_flight = some (record { reason = or_text l.dirty_reason p.reason; answer = none });
      dirty = false;
    }
    | false ↦ record l { in_flight = none }
  ]
]

-- A change of the cluster. Whether a call follows it is another event: some changes have none.
abbrev pub change : World → World
change w = record w { changes = suc w.changes }

-- A call of `reconcileSoon`: by a handler, at boot, or by the periodic sweep.
abbrev pub call : Text → World → World
call reason w = record w { due = w.due ++ reason ∷ []; called_at = w.changes }

-- `setImmediate` runs the oldest call that is due.
unfoldable pub fire : World → World
fire w = elim w.due [
  | [] ↦ w
  | reason ∷ rest ↦ record w { loop = reconcile_replication reason w.loop; due = rest }
]

-- Whether there is a view, or the request failed or had too little to ask with.
unfoldable pub answer_of : Bool → ℕ → Answer
answer_of true changes = view_at changes
answer_of false changes = no_view changes

-- `desiredConfig` comes to an answer.
unfoldable pub look : Bool → World → World
look found w = elim w.loop.in_flight [
  | none ↦ w
  | some p ↦ elim p.answer [
    | some a ↦ w
    | none ↦ record w {
      loop = record w.loop {
        in_flight = some (record p { answer = some (answer_of found w.changes) });
      };
    }
  ]
]

-- What `applyReplicationConfig` says of a view; without one it is not called.
unfoldable pub outcome_of : Bool → Answer → Outcome
outcome_of success (no_view n) = saw_nothing n
outcome_of true (view_at n) = applied n
outcome_of false (view_at n) = not_applied n

-- The pass ends, with an error as well: `onePass` catches all of them.
unfoldable pub finish : Bool → World → World
finish success w = elim w.loop.in_flight [
  | none ↦ w
  | some p ↦ elim p.answer [
    | none ↦ w
    | some a ↦ record w { loop = end_pass w.loop; last = some (outcome_of success a) }
  ]
]

pub data Step : World → World → Type 0 where
  changes : (w : World) → Step w (change w)
  calls : (w : World) (reason : Text) → Step w (call reason w)
  fires : (w : World) → Step w (fire w)
  looks : (w : World) (found : Bool) → Step w (look found w)
  finishes : (w : World) (success : Bool) → Step w (finish success w)

-- At boot nothing runs, and the first call is due.
abbrev pub boot : World
boot = record {
  loop = record { in_flight = none; dirty = false; dirty_reason = [] };
  changes = 0;
  due = codes "boot" ∷ [];
  called_at = 0;
  last = none;
}

pub data Reachable : World → Type 0 where
  booted : Reachable boot
  after : {w x : World} → Reachable w → Step w x → Reachable x
