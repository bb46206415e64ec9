-- ===== src/WriteProxy/Redirect.antt =====
-- nodejs/utils/fetch_with_auth_redirect.js: a request that follows redirects with its credentials.
use theta_directory.Base.{
  ℕ, zero, suc, ◌≤◌, Bool, true, false, not, List, [], ◌∷◌, eqb, ◌||◌, All, All-weaken, length,
  Text, ◌==◌, eq_sound, to_lower, is_empty, ◌≡◌, refl, ◌⊎◌, inl, inr, ◌∙◌, arith, if◌then◌else◌,
  Bool-cases, Option, none, some, if_cases, Result, ok, err,
}

pub record Response : Type 0 where
  pub status : ℕ
  pub location : Text

pub data Failure : Type 0 where
  unreachable : Failure
  no_location : Failure
  too_many : Failure
  bad_address : Failure
  cross_host : Failure

-- The addresses that the request was sent to, and how it ended.
pub record Trace : Type 0 where
  pub sent : List Text
  pub answer : Result Failure Response

unfoldable pub is_redirect : ℕ → Bool
is_redirect status = eqb status 301 || eqb status 302 || eqb status 307 || eqb status 308

abbrev pub max_redirects : ℕ
max_redirects = 3

abbrev pub ends : Text → Result Failure Response → Trace
ends url answer = record { sent = url ∷ []; answer = answer }

abbrev pub then_sent : Text → Trace → Trace
then_sent url t = record t { sent = url ∷ t.sent }

-- `fetch` is the network; `resolve` and `host` are the WHATWG URL parser, which may refuse.
module _ (fetch : Text → Result Failure Response) (resolve : Text → Text → Option Text)
    (host : Text → Text) where
  unfoldable pub on_target : (Text → Trace) → Text → Option Text → Trace
  on_target next url none = ends url (err bad_address)
  on_target next url (some target) =
      if not (to_lower (host target) == to_lower (host url))
      then ends url (err cross_host)
      else then_sent url (next target)

  -- What becomes of a response, with `next` for the rest of the loop.
  unfoldable pub on_response : (Text → Trace) → Bool → Text → Result Failure Response → Trace
  on_response next is_last url (err failure) = ends url (err failure)
  on_response next is_last url (ok resp) =
      if not (is_redirect resp.status)
      then ends url (ok resp)
      else if is_empty resp.location
      then ends url (err no_location)
      else if is_last
      then ends url (err too_many)
      else on_target next url (resolve resp.location url)

  -- The loop, with the redirects that are left.
  unfoldable pub fetch_from : ℕ → Text → Trace
  fetch_from zero url = on_response (λ u. ends u (err too_many)) true url (fetch url)
  fetch_from (suc left) url = on_response (fetch_from left) false url (fetch url)

  unfoldable pub fetch_with_auth_redirect : Text → Trace
  fetch_with_auth_redirect url = fetch_from max_redirects url

  abbrev pub IsAtHost : Text → Text → Type 0
  IsAtHost url u = to_lower (host u) ≡ to_lower (host url)

  -- The trace stays at the host and is at most so long.
  record IsConfined (n : ℕ) (url : Text) (t : Trace) : Type 0 where
    at_host : All (IsAtHost url) t.sent
    short : length t.sent ≤ n

  ends-IsConfined :
      (n : ℕ) (url : Text) (a : Result Failure Response) → IsConfined (suc n) url (ends url a)
  ends-IsConfined n url a = record { at_host = (refl, tt); short = omega arith }

  then-IsConfined :
      (n : ℕ) (url target : Text) (t : Trace)
      → (to_lower (host target) == to_lower (host url)) ≡ true
      → IsConfined n target t
      → IsConfined (suc n) url (then_sent url t)
  then-IsConfined n url target t same h =
      let at_url = eq_sound (to_lower (host target)) (to_lower (host url)) same in
      record {
        at_host = (
          refl,
          All-weaken (IsAtHost target) (IsAtHost url) t.sent (λ u e. e ∙ at_url) h.at_host,
        );
        short = omega (arith, h.short);
      }

  on_target-IsConfined :
      (next : Text → Trace) (n : ℕ) (url : Text) (o : Option Text)
      → ((u : Text) → IsConfined n u (next u))
      → IsConfined (suc n) url (on_target next url o)
  unfolding on_target
  on_target-IsConfined next n url none h = ends-IsConfined n url _
  on_target-IsConfined next n url (some target) h =
      elim (Bool-cases (to_lower (host target) == to_lower (host url))) [
        | inr other ↦ rw other (ends-IsConfined n url _)
        | inl same ↦ rw same (then-IsConfined n url target (next target) same (h target))
      ]

  on_response-IsConfined :
      (next : Text → Trace) (is_last : Bool) (n : ℕ) (url : Text) (r : Result Failure Response)
      → ((is_last ≡ true) ⊎ ((u : Text) → IsConfined n u (next u)))
      → IsConfined (suc n) url (on_response next is_last url r)
  unfolding on_response
  on_response-IsConfined next is_last n url (err failure) h = ends-IsConfined n url (err failure)
  on_response-IsConfined next is_last n url (ok resp) h =
      if_cases (IsConfined (suc n) url) (not (is_redirect resp.status)) _ _
        (ends-IsConfined n url _)
        (if_cases (IsConfined (suc n) url) (is_empty resp.location) _ _ (ends-IsConfined n url _)
          (elim h [
            | inl stop ↦ rw stop (ends-IsConfined n url _)
            | inr f ↦
                if_cases (IsConfined (suc n) url) is_last _ _ (ends-IsConfined n url _)
                  (on_target-IsConfined next n url (resolve resp.location url) f)
          ]))

  fetch_from-IsConfined : (left : ℕ) (url : Text) → IsConfined (suc left) url (fetch_from left url)
  unfolding fetch_from
  fetch_from-IsConfined zero url = on_response-IsConfined _ true 0 url (fetch url) (inl refl)
  fetch_from-IsConfined (suc left) url =
      on_response-IsConfined (fetch_from left) false (suc left) url (fetch url)
        (inr (fetch_from-IsConfined left))

  -- Credentials go to the host of the first address only, and at most four times, whatever the
  -- servers answer.
  pub fetch_with_auth_redirect-confined :
      (url : Text)
      → All (IsAtHost url) (fetch_with_auth_redirect url).sent
        × (length (fetch_with_auth_redirect url).sent ≤ 4)
  unfolding fetch_with_auth_redirect
  fetch_with_auth_redirect-confined url =
      let h = fetch_from-IsConfined max_redirects url in (h.at_host, h.short)
