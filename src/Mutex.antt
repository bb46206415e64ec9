-- ===== src/Mutex.antt =====
-- nodejs/utils/mutex.js: the in-process lock and its queue.
pub mod Exclusion
pub mod Order
mod Tests
use theta_directory.Base.{
  ℕ, suc, ◌+◌, ◌<◌, Bool, true, false, not, ◌&&◌, List, [], ◌∷◌, ◌++◌, filter, Option, none, some,
  get_or, if◌then◌else◌, eqb, length, Text, codes, ◌==◌, or_text, includes, get, put, delete, In,
  ◌≡◌, Result, ok, err,
}

-- One waiting call: the order in which it came stands for the identity of its `resolve`.
pub record Waiter : Type 0 where
  pub ticket : ℕ

pub record LockState : Type 0 where
  pub held : Bool
  pub holder : Option Text
  pub since : ℕ
  pub waiters : List Waiter

abbrev pub Locks : Type 0
Locks = List (Text × LockState)

abbrev pub fresh : LockState
fresh = record { held = false; holder = none; since = 0; waiters = [] }

-- `state(name)`; the caller stores what it made of the state under the same name.
unfoldable pub state : Locks → Text → LockState
state locks name = get_or (get locks name) fresh

-- The state after the call, and whether the promise is resolved at once.
unfoldable pub acquire : LockState → Waiter → LockState × Bool
acquire s waiter =
    if not s.held
    then (record s { held = true }, true)
    else (record s { waiters = s.waiters ++ waiter ∷ [] }, false)

-- The locks after the call, and the waiter whose promise is resolved.
unfoldable pub release_to : Locks → Text → LockState → ℕ → List Waiter → Locks × Option Waiter
release_to locks name s now [] = (delete locks name, none)
release_to locks name s now (next ∷ rest) =
    (put locks name (record s { holder = none; since = now; waiters = rest }), some next)

unfoldable pub release : Locks → Text → ℕ → Locks × Option Waiter
release locks name now = let s = state locks name in release_to locks name s now s.waiters

-- `s.waiters.splice(s.waiters.indexOf(waiter), 1)`
unfoldable pub drop_waiter : ℕ → List Waiter → List Waiter
drop_waiter ticket [] = []
drop_waiter ticket (w ∷ ws) =
    let rest = drop_waiter ticket ws in if eqb w.ticket ticket then ws else w ∷ rest

-- The body of the timer.
unfoldable pub time_out : Locks → Text → ℕ → Locks
time_out locks name ticket =
    let s = state locks name in
    let left = drop_waiter ticket s.waiters in
    if not s.held && eqb (length left) 0
    then delete locks name
    else put locks name (record s { waiters = left })

-- The locks, the calls whose `acquire` was resolved and that have not released yet, and the
-- number of the next call.
pub record World : Type 0 where
  pub locks : Locks
  pub inside : List (Text × ℕ)
  pub next_ticket : ℕ

pub data Fault : Type 0 where
  reentered : Text → Fault

unfoldable pub enter_with : World → Text → LockState × Bool → World
enter_with w name (s, granted) = record {
  locks = put w.locks name s;
  inside = if granted then (name, w.next_ticket) ∷ w.inside else w.inside;
  next_ticket = suc w.next_ticket;
}

-- `withLock` to its `await`; `outer` is what the context holds.
unfoldable pub with_lock : World → List Text → Text → Result Fault World
with_lock w outer name =
    if includes outer name
    then err (reentered name)
    else ok (enter_with w name (acquire (state w.locks name) (record { ticket = w.next_ticket })))

-- `withLock` behind its `await`.
unfoldable pub resume : World → Text → Text → ℕ → World
resume w name label now = record w {
  locks = put w.locks name (record (state w.locks name) {
    holder = some (or_text label (codes "unlabelled"));
    since = now;
  });
}

unfoldable pub is_call : Text → ℕ → Text × ℕ → Bool
is_call name ticket (n, t) = n == name && eqb t ticket

unfoldable pub admit : Text → Option Waiter → List (Text × ℕ) → List (Text × ℕ)
admit name none inside = inside
admit name (some waiter) inside = (name, waiter.ticket) ∷ inside

unfoldable pub leave_with : World → Text → ℕ → Locks × Option Waiter → World
leave_with w name ticket (locks, next) = record w {
  locks = locks;
  inside = admit name next (filter (λ c. not (is_call name ticket c)) w.inside);
}

-- The `finally` of `withLock`.
unfoldable pub leave : World → Text → ℕ → ℕ → World
leave w name ticket now = leave_with w name ticket (release w.locks name now)

abbrev pub start : World
start = record { locks = []; inside = []; next_ticket = 0 }

-- Whatever the event loop runs next.
pub data Step : World → World → Type 0 where
  called :
      (w : World) (outer : List Text) (name : Text) (w' : World)
      → with_lock w outer name ≡ ok w'
      → Step w w'
  resumed :
      (w : World) (name label : Text) (ticket now : ℕ)
      → In (name, ticket) w.inside
      → Step w (resume w name label now)
  left :
      (w : World) (name : Text) (ticket now : ℕ)
      → In (name, ticket) w.inside
      → Step w (leave w name ticket now)
  timed_out :
      (w : World) (name : Text) (ticket : ℕ)
      → In (record { ticket = ticket }) (state w.locks name).waiters
      → Step w (record w { locks = time_out w.locks name ticket })

pub data Reachable : World → Type 0 where
  initial : Reachable start
  after : {w w' : World} → Reachable w → Step w w' → Reachable w'
