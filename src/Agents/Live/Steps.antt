-- ===== src/Agents/Live/Steps.antt =====
-- What can happen to the sockets of nodejs/utils/agent_manager.js, and what each step keeps.
use theta_directory.Base.{
  ℕ, true, false, not, List, [], ◌∷◌, Option, none, some, eqb, eqb_iff, if_elim, Text, ◌==◌, eq_iff,
  get, put, delete, get-put, get-put_self, get-delete, In, filter-In, ◌≡◌, ◌≢◌, refl, sym, ◌∙◌, ap,
  ◌⊎◌, inl, inr, arith, Bool-cases, Option-cases, subst, none≢some, some-injective,
}
use theta_directory.Agents.Live.{
  Response, Session, Fleet, close_socket, is_open, supersede, register_agent, unregister_agent,
  disconnect, handle_response, on_connect, on_close,
}

-- The socket was never seen.
abbrev pub IsNew : Fleet → ℕ → Type 0
IsNew f ws =
    ((id : Text) → In (ws, id) f.sockets → ⊥)
    × ((id : Text) (s : Session) → get f.live id ≡ some s → s.ws ≢ ws)

-- What can happen to the fleet, in any order.
pub data Step : Fleet → Fleet → Type 0 where
  connects :
      (f : Fleet) (id : Text) (ws : ℕ) (address : Text)
      → IsNew f ws
      → Step f (on_connect f id ws address)
  closes : (f : Fleet) (id : Text) (ws : ℕ) → Step f (on_close f id ws)
  is_cut : (f : Fleet) (id : Text) → Step f (disconnect f id).1
  answers : (f : Fleet) (id : Text) (r : Response) → Step f (handle_response f id r)

pub data Reachable : Fleet → Type 0 where
  start : Reachable (record { live = []; sockets = [] })
  after : {f g : Fleet} → Reachable f → Step f g → Reachable g

-- Every open socket is the live one of its agent, and no other agent has it.
pub record IsTracked (f : Fleet) : Type 0 where
  pub live :
      (id : Text) (ws : ℕ)
      → In (ws, id) f.sockets
      → (s : Session) × (get f.live id ≡ some s) × (s.ws ≡ ws)
  pub own :
      (id other : Text) (s : Session)
      → get f.live id ≡ some s
      → In (s.ws, other) f.sockets
      → other ≡ id

pub close_socket-In :
    (ws : ℕ) (sockets : List (ℕ × Text)) (s : ℕ × Text)
    → In s (close_socket ws sockets)
    → In s sockets × (s.0 ≢ ws)
unfolding close_socket
close_socket-In ws sockets s h =
    let kept = filter-In (λ t. not (eqb t.0 ws)) sockets s h in
    (kept.0, λ same. absurd (ground (arith, kept.1, (eqb_iff s.0 ws).1 same)))

pub supersede-In :
    (existing : Option Session) (ws : ℕ) (sockets : List (ℕ × Text)) (s : ℕ × Text)
    → In s (supersede existing ws sockets)
    → In s sockets × ((e : Session) → existing ≡ some e → e.ws ≢ ws → s.0 ≢ e.ws)
unfolding supersede
supersede-In none ws sockets s h = (h, λ e found. absurd (none≢some found))
supersede-In (some e) ws sockets s h = elim (Bool-cases (eqb e.ws ws)) [
  | inl same ↦ (
    rw same at h,
    λ e' found differs.
        absurd (differs (ap (λ x. x.ws) (sym (some-injective found)) ∙ (eqb_iff e.ws ws).0 same)),
  )
  | inr other ↦
      let kept = close_socket-In e.ws sockets s (rw other at h) in
      (kept.0, λ e' found differs at_e. kept.1 (at_e ∙ ap (λ x. x.ws) (sym (some-injective found))))
]

pub put_cases :
    (m : List (Text × Session)) (k j : Text) (v s : Session)
    → get (put m k v) j ≡ some s
    → ((k ≡ j) × (v ≡ s)) ⊎ (((k == j) ≡ false) × (get m j ≡ some s))
put_cases m k j v s h = elim (Bool-cases (k == j)) [
  | inl same ↦ inl ((eq_iff k j).0 same, some-injective (rw (get-put m k j v, same) at h))
  | inr other ↦ inr (other, rw (get-put m k j v, other) at h)
]

pub get-put_other :
    (m : List (Text × Session)) (k j : Text) (v : Session)
    → (k == j) ≡ false
    → get (put m k v) j ≡ get m j
get-put_other m k j v other = rw (get-put m k j v, other) refl

pub any-In :
    (ws : ℕ) (sockets : List (ℕ × Text))
    → is_open ws sockets ≡ true
    → (other : Text) × In (ws, other) sockets
unfolding is_open
any-In ws [] h = absurd (ground arith)
any-In ws ((v, other) ∷ more) h = elim (Bool-cases (eqb v ws)) [
  | inl same ↦ (other, inl (ap (λ w. (w, other)) (sym ((eqb_iff v ws).0 same))))
  | inr differs ↦ let below = any-In ws more (ground (arith, h, differs)) in (below.0, inr below.1)
]

-- An answer changes neither the socket of the agent nor those that are open.
pub answered :
    (f : Fleet) (id : Text) (state : Session) (r : Option Response)
    → get f.live id ≡ some state
    → IsTracked f
    → IsTracked (record f { live = put f.live id (record state { last_response = r }) })
answered f id state r found h =
    let new : Session = record state { last_response = r } in
    record {
      live = λ id' ws here.
          let was = h.live id' ws here in
          elim (Bool-cases (id == id')) [
            | inl same ↦
                let e = (eq_iff id id').0 same in
                let one : state ≡ was.0 =
                  some-injective
                    (sym found ∙ subst (λ k. get f.live k ≡ some was.0) (sym e) was.1) in
                (
                  new,
                  subst (λ k. get (put f.live id new) k ≡ some new) e (get-put_self f.live id new),
                  ap (λ x. x.ws) one ∙ was.2,
                )
            | inr other ↦ (was.0, get-put_other f.live id id' new other ∙ was.1, was.2)
          ];
      own = λ id' other s held here. elim (put_cases f.live id id' new s held) [
        | inl (same, is_new) ↦
            h.own id other state found
              (subst (λ w. In (w, other) f.sockets) (ap (λ x. x.ws) (sym is_new)) here)
            ∙ same
        | inr (differs, before) ↦ h.own id' other s before here
      ];
    }

pub on_connect-IsTracked :
    (f : Fleet) (id : Text) (ws : ℕ) (address : Text)
    → IsNew f ws
    → IsTracked f
    → IsTracked (on_connect f id ws address)
unfolding on_connect register_agent
on_connect-IsTracked f id ws address fresh h =
    let new : Session = record { ws = ws; ip_address = address; last_response = none } in
    record {
      live = λ id' ws' here. elim here [
        | inl e ↦ (
          new,
          subst (λ k. get (put f.live id new) k ≡ some new) (sym (ap (λ p. p.1) e))
              (get-put_self f.live id new),
          sym (ap (λ p. p.0) e),
        )
        | inr old ↦
            let kept = supersede-In (get f.live id) ws f.sockets (ws', id') old in
            let was = h.live id' ws' kept.0 in
            elim (Bool-cases (id == id')) [
              | inl same ↦
                  let found =
                    subst (λ k. get f.live k ≡ some was.0) (sym ((eq_iff id id').0 same)) was.1 in
                  absurd (kept.1 was.0 found (fresh.1 id was.0 found) (sym was.2))
              | inr other ↦ (was.0, get-put_other f.live id id' new other ∙ was.1, was.2)
            ]
      ];
      own = λ id' other s found here. elim (put_cases f.live id id' new s found) [
        | inl (same, is_new) ↦ elim here [
          | inl e ↦ ap (λ p. p.1) e ∙ same
          | inr old ↦
              let kept = supersede-In (get f.live id) ws f.sockets (s.ws, other) old in
              absurd (
                fresh.0 other
                  (subst (λ w. In (w, other) f.sockets) (ap (λ x. x.ws) (sym is_new)) kept.0))
        ]
        | inr (differs, before) ↦ elim here [
          | inl e ↦ absurd (fresh.1 id' s before (ap (λ p. p.0) e))
          | inr old ↦
              h.own id' other s before
                (supersede-In (get f.live id) ws f.sockets (s.ws, other) old).0
        ]
      ];
    }

-- What stays tracked when `id` is forgotten and none of its sockets is open.
pub forget-IsTracked :
    (f : Fleet) (id : Text) (sockets : List (ℕ × Text))
    → IsTracked f
    → ((s : ℕ × Text) → In s sockets → In s f.sockets × (s.1 ≢ id))
    → IsTracked (record { live = delete f.live id; sockets = sockets })
forget-IsTracked f id sockets h sub = record {
  live = λ id' ws here.
      let was = h.live id' ws (sub (ws, id') here).0 in
      elim (Bool-cases (id == id')) [
        | inl same ↦ absurd ((sub (ws, id') here).1 (sym ((eq_iff id id').0 same)))
        | inr other ↦ (was.0, rw (get-delete f.live id id', other) was.1, was.2)
      ];
  own = λ id' other s found here. elim (Bool-cases (id == id')) [
    | inl same ↦ absurd (none≢some (rw (get-delete f.live id id', same) at found))
    | inr differs ↦
        h.own id' other s (rw (get-delete f.live id id', differs) at found)
          (sub (s.ws, other) here).0
  ];
}

-- A socket that is closed is open as nobody.
pub closed-IsTracked :
    (f : Fleet) (ws : ℕ)
    → IsTracked f
    → IsTracked (record f { sockets = close_socket ws f.sockets })
closed-IsTracked f ws h = record {
  live = λ id' ws' here. h.live id' ws' (close_socket-In ws f.sockets (ws', id') here).0;
  own = λ id' other s found here.
      h.own id' other s found (close_socket-In ws f.sockets (s.ws, other) here).0;
}

-- The live socket of an agent is closed: no other is open as the agent.
pub left_open :
    (f : Fleet) (id : Text) (state : Session)
    → IsTracked f
    → get f.live id ≡ some state
    → (s : ℕ × Text) → In s (close_socket state.ws f.sockets)
    → In s f.sockets × (s.1 ≢ id)
left_open f id state h found (ws, other) here =
    let kept = close_socket-In state.ws f.sockets (ws, other) here in
    (
      kept.0,
      λ same.
          let was = h.live other ws kept.0 in
          let one : was.0 ≡ state =
            some-injective (sym was.1 ∙ subst (λ k. get f.live k ≡ some state) (sym same) found) in
          absurd (kept.1 (sym was.2 ∙ ap (λ x. x.ws) one)),
    )

pub on_close-IsTracked :
    (f : Fleet) (id : Text) (ws : ℕ) → IsTracked f → IsTracked (on_close f id ws)
unfolding on_close unregister_agent
on_close-IsTracked f id ws h = elim (Option-cases (get f.live id)) [
  | inl missing ↦ rw (missing, unregister_agent) (closed-IsTracked f ws h)
  | inr (state, found) ↦
      rw (found, unregister_agent)
        (if_elim IsTracked (eqb state.ws ws)
          (record { live = delete f.live id; sockets = close_socket ws f.sockets })
          (record f { sockets = close_socket ws f.sockets })
          (λ same. forget-IsTracked f id (close_socket ws f.sockets) h (
            subst
              (λ w. (s : ℕ × Text) → In s (close_socket w f.sockets) → In s f.sockets × (s.1 ≢ id))
              ((eqb_iff state.ws ws).0 same) (left_open f id state h found)))
          (λ other. closed-IsTracked f ws h))
]

pub disconnect-IsTracked : (f : Fleet) (id : Text) → IsTracked f → IsTracked (disconnect f id).1
unfolding disconnect
disconnect-IsTracked f id h = elim (Option-cases (get f.live id)) [
  | inl missing ↦ rw (missing, disconnect) h
  | inr (state, found) ↦
      rw (found, disconnect)
        (forget-IsTracked f id (close_socket state.ws f.sockets) h (left_open f id state h found))
]
