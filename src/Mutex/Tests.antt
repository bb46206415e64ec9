-- ===== src/Mutex/Tests.antt =====
-- Two calls for one lock of nodejs/utils/mutex.js.
use theta_directory.Base.{
  ◌≤◌, ◌<◌, [], ◌∷◌, Text, codes, ◌≡◌, refl, ◌⊎◌, In, All, get, put, ◌==◌, includes,
}
use theta_directory.Mutex.{
  Waiter, World, state, acquire, with_lock, enter_with, leave, start, Step, called, Reachable,
  initial, after,
}
use theta_directory.Mutex.Exclusion.{count, mutual_exclusion}
use theta_directory.Mutex.Order.{leave-oldest}

abbrev name : Text
name = codes "site-spoke-register"

abbrev enter : World → World
enter w = enter_with w name (acquire (state w.locks name) (record { ticket = w.next_ticket }))

abbrev one_call : World
one_call = enter start

abbrev two_calls : World
two_calls = enter one_call

called_name : (w : World) → Step w (enter w)
unfolding with_lock includes
called_name w = called w [] name (enter w) refl

two_calls-Reachable : Reachable two_calls
two_calls-Reachable = after (after initial (called_name start)) (called_name one_call)

second_waits : (state two_calls.locks name).waiters ≡ record { ticket = 1 } ∷ []
unfolding enter_with acquire state get put ◌==◌
second_waits = refl

mutual_exclusion_example :
    (count name two_calls.inside ≤ 1)
    × (((state two_calls.locks name).waiters ≡ []) ⊎ (count name two_calls.inside ≡ 1))
mutual_exclusion_example = mutual_exclusion two_calls name two_calls-Reachable

leave-oldest_example :
    In (name, 1) (leave two_calls name 0 5).inside
    × ((state (leave two_calls name 0 5).locks name).waiters ≡ [])
    × All (λ (later : Waiter). 1 < later.ticket) []
leave-oldest_example =
    leave-oldest two_calls name 0 5 (record { ticket = 1 }) [] two_calls-Reachable second_waits
