-- ===== src/Mutex/Order.antt =====
-- The queue of nodejs/utils/mutex.js is served in the order of the calls.
use theta_directory.Base.{
  ℕ, suc, ◌<◌, Bool, not, List, [], ◌∷◌, ◌++◌, Option, none, some, get_or, eqb, if_cases, Text,
  ◌==◌, includes, get, put, delete, get-put, get-put_self, get-delete, In, All, All-append, ◌≡◌,
  refl, inl, inr, arith, Bool-cases, ok-injective, err≢ok, subst, ap,
}
use theta_directory.Mutex.{
  Waiter, LockState, Locks, fresh, state, acquire, release_to, release, time_out, drop_waiter,
  World, enter_with, with_lock, resume, admit, leave_with, leave, Step, called, resumed, left,
  timed_out, Reachable, initial, after,
}

-- The tickets rise, and a later call's is higher than all.
abbrev pub IsQueue : ℕ → List Waiter → Type 0
IsQueue n [] = Unit
IsQueue n (w ∷ ws) = (w.ticket < n) × All (λ v. w.ticket < v.ticket) ws × IsQueue n ws

abbrev IsQueued : ℕ → Option LockState → Type 0
IsQueued n none = Unit
IsQueued n (some s) = IsQueue n s.waiters

abbrev AllQueued : ℕ → Locks → Type 0
AllQueued n locks = (name : Text) → IsQueued n (get locks name)

IsQueue-last :
    (n : ℕ) (ws : List Waiter) → IsQueue n ws → IsQueue (suc n) (ws ++ record { ticket = n } ∷ [])
IsQueue-last n [] h = (omega arith, tt, tt)
IsQueue-last n (w ∷ ws) (below, rising, h) = (
  omega (arith, below),
  All-append (λ v. w.ticket < v.ticket) ws _ rising (below, tt),
  IsQueue-last n ws h,
)

IsQueue-suc : (n : ℕ) (ws : List Waiter) → IsQueue n ws → IsQueue (suc n) ws
IsQueue-suc n [] h = tt
IsQueue-suc n (w ∷ ws) (below, rising, h) = (omega (arith, below), rising, IsQueue-suc n ws h)

All-drop :
    (m ticket : ℕ) (ws : List Waiter)
    → All (λ v. m < v.ticket) ws
    → All (λ v. m < v.ticket) (drop_waiter ticket ws)
unfolding drop_waiter
All-drop m ticket [] h = tt
All-drop m ticket (w ∷ ws) (p, h) = elim (Bool-cases (eqb w.ticket ticket)) [
  | inl hit ↦ rw hit h
  | inr miss ↦ rw miss (p, All-drop m ticket ws h)
]

IsQueue-drop : (n ticket : ℕ) (ws : List Waiter) → IsQueue n ws → IsQueue n (drop_waiter ticket ws)
unfolding drop_waiter
IsQueue-drop n ticket [] h = tt
IsQueue-drop n ticket (w ∷ ws) (below, rising, h) = elim (Bool-cases (eqb w.ticket ticket)) [
  | inl hit ↦ rw hit h
  | inr miss ↦ rw miss (below, All-drop w.ticket ticket ws rising, IsQueue-drop n ticket ws h)
]

IsQueued-or : (n : ℕ) (o : Option LockState) → IsQueued n o → IsQueue n (get_or o fresh).waiters
IsQueued-or n none h = tt
IsQueued-or n (some s) h = h

suc-IsQueued : (n : ℕ) (o : Option LockState) → IsQueued n o → IsQueued (suc n) o
suc-IsQueued n none h = tt
suc-IsQueued n (some s) h = IsQueue-suc n s.waiters h

put-AllQueued :
    (n : ℕ) (locks : Locks) (name : Text) (s : LockState)
    → IsQueue n s.waiters
    → AllQueued n locks
    → AllQueued n (put locks name s)
put-AllQueued n locks name s q h other =
    rw (get-put locks name other s)
      (if_cases (IsQueued n) (name == other) (some s) (get locks other) q (h other))

delete-AllQueued :
    (n : ℕ) (locks : Locks) (name : Text) → AllQueued n locks → AllQueued n (delete locks name)
delete-AllQueued n locks name h other =
    rw (get-delete locks name other)
      (if_cases (IsQueued n) (name == other) none (get locks other) tt (h other))

suc-AllQueued : (n : ℕ) (locks : Locks) → AllQueued n locks → AllQueued (suc n) locks
suc-AllQueued n locks h other = suc-IsQueued n (get locks other) (h other)

acquire-IsQueue :
    (n : ℕ) (s : LockState)
    → IsQueue n s.waiters
    → IsQueue (suc n) (acquire s (record { ticket = n })).0.waiters
unfolding acquire
acquire-IsQueue n s h =
    if_cases (λ (a : LockState × Bool). IsQueue (suc n) a.0.waiters) (not s.held) _ _
      (IsQueue-suc n s.waiters h) (IsQueue-last n s.waiters h)

release_to-AllQueued :
    (n : ℕ) (locks : Locks) (name : Text) (s : LockState) (now : ℕ) (ws : List Waiter)
    → IsQueue n ws
    → AllQueued n locks
    → AllQueued n (release_to locks name s now ws).0
unfolding release_to
release_to-AllQueued n locks name s now [] q h = delete-AllQueued n locks name h
release_to-AllQueued n locks name s now (w ∷ ws) (below, rising, q) h =
    put-AllQueued n locks name _ q h

time_out-AllQueued :
    (n : ℕ) (locks : Locks) (name : Text) (ticket : ℕ)
    → AllQueued n locks
    → AllQueued n (time_out locks name ticket)
unfolding time_out state
time_out-AllQueued n locks name ticket h =
    if_cases (AllQueued n) _ _ _ (delete-AllQueued n locks name h) (
      put-AllQueued n locks name _
        (IsQueue-drop n ticket (state locks name).waiters (IsQueued-or n (get locks name) (h name)))
        h)

abbrev IsOrdered : World → Type 0
IsOrdered w = AllQueued w.next_ticket w.locks

Step-IsOrdered : {w w' : World} → IsOrdered w → Step w w' → IsOrdered w'
unfolding with_lock resume leave leave_with release enter_with state
Step-IsOrdered h (called w outer name w' e) = elim (Bool-cases (includes outer name)) [
  | inl again ↦ absurd (err≢ok (rw again at e))
  | inr first ↦ subst IsOrdered (ok-injective (rw first at e)) (
      put-AllQueued (suc w.next_ticket) w.locks name _
        (acquire-IsQueue w.next_ticket (state w.locks name)
          (IsQueued-or w.next_ticket (get w.locks name) (h name)))
        (suc-AllQueued w.next_ticket w.locks h))
]
Step-IsOrdered h (resumed w name label ticket now m) =
    put-AllQueued w.next_ticket w.locks name _
      (IsQueued-or w.next_ticket (get w.locks name) (h name)) h
Step-IsOrdered h (left w name ticket now m) =
    release_to-AllQueued w.next_ticket w.locks name _ now _
      (IsQueued-or w.next_ticket (get w.locks name) (h name)) h
Step-IsOrdered h (timed_out w name ticket m) =
    time_out-AllQueued w.next_ticket w.locks name ticket h

Reachable-IsOrdered : (w : World) → Reachable w → IsOrdered w
unfolding get
Reachable-IsOrdered w initial = λ name. tt
Reachable-IsOrdered w (after r step) = Step-IsOrdered (Reachable-IsOrdered _ r) step

release_to-waiters :
    (locks : Locks) (name : Text) (s : LockState) (now : ℕ) (next : Waiter) (rest : List Waiter)
    → (state (release_to locks name s now (next ∷ rest)).0 name).waiters ≡ rest
unfolding state release_to
release_to-waiters locks name s now next rest =
    ap (λ (o : Option LockState). (get_or o fresh).waiters)
      (get-put_self locks name (record s { holder = none; since = now; waiters = rest }))

-- When a call leaves a lock that others wait for, the oldest of them is let in, the rest stay in
-- the order of their calls.
pub leave-oldest :
    (w : World) (name : Text) (ticket now : ℕ) (next : Waiter) (rest : List Waiter)
    → Reachable w
    → (state w.locks name).waiters ≡ next ∷ rest
    → In (name, next.ticket) (leave w name ticket now).inside
      × ((state (leave w name ticket now).locks name).waiters ≡ rest)
      × All (λ later. next.ticket < later.ticket) rest
unfolding leave leave_with release state release_to admit
leave-oldest w name ticket now next rest r e =
    let q = IsQueued-or w.next_ticket (get w.locks name) (Reachable-IsOrdered w r name) in
    let (below, rising, tail) = subst (IsQueue w.next_ticket) e q in
    rw e (inl refl, release_to-waiters w.locks name (state w.locks name) now next rest, rising)
