-- ===== src/Mutex/Exclusion.antt =====
-- No two calls are inside one lock of nodejs/utils/mutex.js.
use theta_directory.Base.{
  ℕ, suc, ◌≤◌, ◌<◌, Bool, true, false, not, List, [], ◌∷◌, filter, Option, none, some, get_or,
  if◌then◌else◌, ap, Text, ◌==◌, eq_iff, eq_sound, eq_refl, ◌∙◌, includes, get, put, get-put,
  get-put_self, get-delete, In, ◌≡◌, refl, ◌⊎◌, inl, inr, arith, Bool-cases, ok-injective, err≢ok,
  sym, subst,
}
use theta_directory.Mutex.{
  Waiter, LockState, Locks, fresh, state, acquire, release_to, release, time_out, World, enter_with,
  with_lock, resume, is_call, admit, leave_with, leave, Step, called, resumed, left, timed_out,
  Reachable, initial, after, drop_waiter,
}

abbrev pub count : Text → List (Text × ℕ) → ℕ
count name [] = 0
count name ((n, t) ∷ cs) = let rest = count name cs in if n == name then suc rest else rest

-- A lock that is in the table is held, by one call.
abbrev IsOwned : Option LockState → ℕ → Type 0
IsOwned none n = n ≡ 0
IsOwned (some s) n = (s.held ≡ true) × (n ≡ 1)

abbrev IsExclusive : World → Type 0
IsExclusive w = (name : Text) → IsOwned (get w.locks name) (count name w.inside)

count-filter_other :
    (name other : Text) (ticket : ℕ) (cs : List (Text × ℕ))
    → (name == other) ≡ false
    → count other (filter (λ c. not (is_call name ticket c)) cs) ≡ count other cs
unfolding is_call
count-filter_other name other ticket [] h = refl
count-filter_other name other ticket ((n, t) ∷ cs) h = ground (
  arith,
  eq_iff n name,
  eq_iff n other,
  eq_iff name other,
  count-filter_other name other ticket cs h,
)

count-filter_le :
    (name : Text) (ticket : ℕ) (cs : List (Text × ℕ))
    → count name (filter (λ c. not (is_call name ticket c)) cs) ≤ count name cs
unfolding is_call
count-filter_le name ticket [] = omega arith
count-filter_le name ticket ((n, t) ∷ cs) = ground (arith, count-filter_le name ticket cs)

count-filter_lt :
    (name : Text) (ticket : ℕ) (cs : List (Text × ℕ))
    → In (name, ticket) cs
    → count name (filter (λ c. not (is_call name ticket c)) cs) < count name cs
unfolding is_call
count-filter_lt name ticket [] h = absurd h
count-filter_lt name ticket ((n, t) ∷ cs) (inl e) =
    let same : name ≡ n = ap (λ c. c.0) e in
    let here : ticket ≡ t = ap (λ c. c.1) e in
    ground (arith, eq_iff n name, count-filter_le name ticket cs)
count-filter_lt name ticket ((n, t) ∷ cs) (inr m) = ground (arith, count-filter_lt name ticket cs m)

owned_of : (o : Option LockState) (n : ℕ) → IsOwned o n → n ≤ 1
owned_of none n h = omega arith
owned_of (some s) n (held, h) = omega arith

acquire-IsOwned :
    (o : Option LockState) (n : ℕ) (waiter : Waiter)
    → IsOwned o n
    → ((acquire (get_or o fresh) waiter).0.held ≡ true)
      × ((if (acquire (get_or o fresh) waiter).1 then suc n else n) ≡ 1)
unfolding acquire
acquire-IsOwned none n waiter h = (refl, omega arith)
acquire-IsOwned (some s) n waiter (held, h) = ground arith

IsOwned-by : (o o' : Option LockState) (n n' : ℕ) → o' ≡ o → n' ≡ n → IsOwned o n → IsOwned o' n'
IsOwned-by o o' n n' e f h = subst (λ m. IsOwned o' m) (sym f) (subst (λ p. IsOwned p n) (sym e) h)

count-enter_other :
    (b : Bool) (name other : Text) (ticket : ℕ) (cs : List (Text × ℕ))
    → (name == other) ≡ false
    → count other (if b then (name, ticket) ∷ cs else cs) ≡ count other cs
count-enter_other b name other ticket cs h = ground arith

count-enter_self :
    (b : Bool) (name : Text) (ticket : ℕ) (cs : List (Text × ℕ))
    → count name (if b then (name, ticket) ∷ cs else cs)
      ≡ (if b then suc (count name cs) else count name cs)
count-enter_self b name ticket cs = ground (arith, eq_refl name)

enter-IsExclusive :
    (w : World) (name : Text)
    → IsExclusive w
    → IsExclusive
        (enter_with w name (acquire (state w.locks name) (record { ticket = w.next_ticket })))
unfolding state enter_with
enter-IsExclusive w name h other =
    let (s, granted) =
      acquire (get_or (get w.locks name) fresh) (record { ticket = w.next_ticket }) in
    let (held, one) =
      acquire-IsOwned (get w.locks name) (count name w.inside) (record { ticket = w.next_ticket })
        (h name) in
    elim (Bool-cases (name == other)) [
      | inr apart ↦
          IsOwned-by (get w.locks other) _ (count other w.inside) _
            (ground (arith, get-put w.locks name other s, apart))
            (count-enter_other granted name other w.next_ticket w.inside apart) (h other)
      | inl same ↦
          subst
            (λ k.
              IsOwned (get (put w.locks name s) k)
                (count k (if granted then (name, w.next_ticket) ∷ w.inside else w.inside)))
            (eq_sound name other same)
            (IsOwned-by (some s) _ 1 _ (get-put_self w.locks name s)
              (count-enter_self granted name w.next_ticket w.inside ∙ one) (held, refl))
    ]

release-IsOwned :
    (locks : Locks) (name : Text) (now : ℕ) (inside : List (Text × ℕ)) (s : LockState)
    (ws : List Waiter)
    → s.held ≡ true
    → count name inside ≡ 0
    → IsOwned
        (get (release_to locks name s now ws).0 name)
        (count name (admit name (release_to locks name s now ws).1 inside))
unfolding release_to admit
release-IsOwned locks name now inside s [] held h =
    IsOwned-by none _ 0 _ (ground (arith, get-delete locks name name, eq_refl name)) h refl
release-IsOwned locks name now inside s (next ∷ rest) held h =
    IsOwned-by (some (record s { holder = none; since = now; waiters = rest })) _ 1 _
      (get-put_self locks name _) (ground (arith, eq_refl name, h)) (held, refl)

release_other :
    (locks : Locks) (name other : Text) (now : ℕ) (inside : List (Text × ℕ)) (s : LockState)
    (ws : List Waiter)
    → (name == other) ≡ false
    → IsOwned (get locks other) (count other inside)
    → IsOwned
        (get (release_to locks name s now ws).0 other)
        (count other (admit name (release_to locks name s now ws).1 inside))
unfolding release_to admit
release_other locks name other now inside s [] apart h =
    IsOwned-by (get locks other) _ (count other inside) _
      (ground (arith, get-delete locks name other, apart)) refl h
release_other locks name other now inside s (next ∷ rest) apart h =
    IsOwned-by (get locks other) _ (count other inside) _
      (ground (
        arith,
        get-put locks name other (record s { holder = none; since = now; waiters = rest }),
        apart,
      ))
      (ground (arith, apart)) h

-- A call that is inside finds its lock in the table.
inside_held :
    (o : Option LockState) (n : ℕ) → IsOwned o n → 1 ≤ n → ((get_or o fresh).held ≡ true) × (n ≡ 1)
inside_held none n h le = absurd (omega arith)
inside_held (some s) n h le = h

leave-IsExclusive :
    (w : World) (name : Text) (ticket now : ℕ)
    → In (name, ticket) w.inside
    → IsExclusive w
    → IsExclusive (leave w name ticket now)
unfolding leave leave_with release state
leave-IsExclusive w name ticket now m h other =
    let s = get_or (get w.locks name) fresh in
    let less = count-filter_lt name ticket w.inside m in
    let (held, one) = inside_held (get w.locks name) (count name w.inside) (h name) (omega arith) in
    elim (Bool-cases (name == other)) [
      | inr apart ↦
          release_other w.locks name other now _ s s.waiters apart (
            IsOwned-by _ _ _ _ refl (count-filter_other name other ticket w.inside apart) (h other))
      | inl same ↦
          subst
            (λ k. IsOwned (get (release_to w.locks name s now s.waiters).0 k) (
              count k (
                admit name (release_to w.locks name s now s.waiters).1
                  (filter (λ c. not (is_call name ticket c)) w.inside))))
            (eq_sound name other same)
            (release-IsOwned w.locks name now _ s s.waiters held (omega (arith, less, one)))
    ]

held_one : (o : Option LockState) (n : ℕ) → IsOwned o n → (get_or o fresh).held ≡ true → n ≡ 1
held_one none n h held = absurd (ground arith)
held_one (some s) n h held = h.1

waiting_held :
    (o : Option LockState) (n : ℕ) (waiter : Waiter)
    → IsOwned o n
    → In waiter (get_or o fresh).waiters
    → (get_or o fresh).held ≡ true
waiting_held none n waiter h m = absurd m
waiting_held (some s) n waiter h m = h.0

queue_owned :
    (o : Option LockState) (n : ℕ) → IsOwned o n → ((get_or o fresh).waiters ≡ []) ⊎ (n ≡ 1)
queue_owned none n h = inl refl
queue_owned (some s) n h = inr h.1

-- A lock that is held keeps its owner when its other columns change.
update-IsExclusive :
    (w : World) (name : Text) (s : LockState)
    → (state w.locks name).held ≡ true
    → s.held ≡ true
    → IsExclusive w
    → IsExclusive (record w { locks = put w.locks name s })
unfolding state
update-IsExclusive w name s was held h other = elim (Bool-cases (name == other)) [
  | inr apart ↦
      IsOwned-by _ _ _ _ (ground (arith, get-put w.locks name other s, apart)) refl (h other)
  | inl same ↦
      subst (λ k. IsOwned (get (put w.locks name s) k) (count k w.inside))
        (eq_sound name other same)
        (IsOwned-by (some s) _ 1 _ (get-put_self w.locks name s)
          (held_one (get w.locks name) (count name w.inside) (h name) was) (held, refl))
]

time_out-IsExclusive :
    (w : World) (name : Text) (ticket : ℕ)
    → In (record { ticket = ticket }) (state w.locks name).waiters
    → IsExclusive w
    → IsExclusive (record w { locks = time_out w.locks name ticket })
unfolding time_out state
time_out-IsExclusive w name ticket m h =
    let held = waiting_held (get w.locks name) (count name w.inside) _ (h name) m in
    rw held (
      update-IsExclusive w name
        (record (state w.locks name) {
          held = true;
          waiters = drop_waiter ticket (state w.locks name).waiters;
        })
        held refl h)

Step-IsExclusive : {w w' : World} → IsExclusive w → Step w w' → IsExclusive w'
unfolding with_lock resume state
Step-IsExclusive h (called w outer name w' e) = elim (Bool-cases (includes outer name)) [
  | inl again ↦ absurd (err≢ok (rw again at e))
  | inr first ↦ subst IsExclusive (ok-injective (rw first at e)) (enter-IsExclusive w name h)
]
Step-IsExclusive h (resumed w name label ticket now m) =
    let inside : 1 ≤ count name w.inside = omega (arith, count-filter_lt name ticket w.inside m) in
    let (held, one) = inside_held (get w.locks name) (count name w.inside) (h name) inside in
    update-IsExclusive w name _ held held h
Step-IsExclusive h (left w name ticket now m) = leave-IsExclusive w name ticket now m h
Step-IsExclusive h (timed_out w name ticket m) = time_out-IsExclusive w name ticket m h

pub Reachable-IsExclusive : (w : World) → Reachable w → IsExclusive w
unfolding get
Reachable-IsExclusive w initial = λ name. refl
Reachable-IsExclusive w (after r step) = Step-IsExclusive (Reachable-IsExclusive _ r) step

-- Whatever the order of the events, at most one call is inside a lock, and a lock that calls wait
-- for has one inside.
pub mutual_exclusion :
    (w : World) (name : Text)
    → Reachable w
    → (count name w.inside ≤ 1) × (((state w.locks name).waiters ≡ []) ⊎ (count name w.inside ≡ 1))
unfolding state
mutual_exclusion w name r =
    let h = Reachable-IsExclusive w r name in (owned_of _ _ h, queue_owned _ _ h)
