-- ===== src/Session/Closing.antt =====
-- Proofs about the closing of a session of src/local-session-internal.ts.
use attunegraph.Common.{
  ℕ, zero, suc, ◌+◌, ◌*◌, ◌-◌, ◌&&◌, ◌==◌, ◌≤◌, ◌<◌, ◌≡◌, refl, false, ◌⊎◌, inl, inr, Bool-cases,
  ltb, arith, subst, ◌≢◌,
}
use attunegraph.Session.{
  still_open, closed, ClosePromise, undefined, draining, resumed, closing_resource, settled,
  Session, fresh, is_open, wake, release, release_opening, finish, engine_opened, engine_failed,
  late_closed, opening_settled, close_resource, start_close, close, close_settled,
}
use attunegraph.Session.Life.{
  Event, begins, finishes, opens, engine_comes, engine_fails, late_closes, opening_settles, closes,
  resumes, close_settles, Run, start, then_event, IsPhase, IsSound, Event-IsSound, Run-IsSound,
  begin-eq-ok, open_handle-eq-ok, phase-open, close-first, close-again, ClosePromise-cases,
}

-- What is left to do for the promise of `close`.
unfoldable steps_left : ClosePromise → ℕ
steps_left undefined = 4
steps_left draining = 3
steps_left resumed = 2
steps_left closing_resource = 1
steps_left settled = 0

-- What is left to happen before a closing session is closed, at most.
unfoldable pub remaining : Session → ℕ
unfolding steps_left
remaining s = 3 * s.waiting + 2 * s.late + s.answered + s.in_flight + steps_left s.close_promise

wake-le : (p : ClosePromise) → steps_left (wake p) ≤ steps_left p
unfolding steps_left wake
wake-le undefined = omega arith
wake-le draining = omega arith
wake-le resumed = omega arith
wake-le closing_resource = omega arith
wake-le settled = omega arith

release-le : (s : Session) → remaining (release s) ≤ remaining s
unfolding release remaining
release-le s = elim (Bool-cases (s.opening + s.in_flight == 0 && s.drain_resolve)) [
  | inl e ↦ rw e (omega (arith, wake-le s.close_promise))
  | inr e ↦ rw e (omega arith)
]

wake-started : (p : ClosePromise) → p ≢ undefined → wake p ≢ undefined
unfolding wake
wake-started undefined n = n
wake-started draining n = λ e. cc
wake-started resumed n = n
wake-started closing_resource n = n
wake-started settled n = n

release-started :
    (s : Session) → s.close_promise ≢ undefined → (release s).close_promise ≢ undefined
unfolding release
release-started s n = elim (Bool-cases (s.opening + s.in_flight == 0 && s.drain_resolve)) [
  | inl e ↦ rw e (wake-started s.close_promise n)
  | inr e ↦ rw e n
]

closing-shut : (s : Session) → IsSound s → s.close_promise ≢ undefined → is_open s.lifecycle ≡ false
closing-shut s h n = elim (Bool-cases (is_open s.lifecycle)) [
  | inl o ↦ absurd (n (phase-open s s.close_promise h.phase o))
  | inr o ↦ o
]

-- What an event counts for: a call of `close` for nothing, each other event for one.
unfoldable pub effort : {s t : Session} → Event s t → ℕ
effort (begins e) = 1
effort (finishes e) = 1
effort (opens options e) = 1
effort (engine_comes e) = 1
effort (engine_fails e) = 1
effort (late_closes e) = 1
effort (opening_settles e) = 1
effort closes = 0
effort (resumes e) = 1
effort (close_settles e) = 1

-- Each event but a further call of `close` brings a closing session nearer to its end.
Event-le :
    {s t : Session} (e : Event s t)
    → IsSound s
    → s.close_promise ≢ undefined
    → (effort e + remaining t ≤ remaining s) × (t.close_promise ≢ undefined)
unfolding effort finish remaining steps_left engine_opened engine_failed late_closed opening_settled
    close_resource close_settled release_opening
Event-le (begins {s} {t} e) h n =
    absurd (n (phase-open s s.close_promise h.phase (begin-eq-ok s t e).0))
Event-le (opens {s} {t} options e) h n =
    absurd (n (phase-open s s.close_promise h.phase (open_handle-eq-ok options s t e).0))
Event-le (closes {s}) h n = rw (close-again s n) (omega arith, n)
Event-le (finishes {s} e) h n =
    let ended = record s { in_flight = s.in_flight - 1 } in
    (omega (arith, release-le ended, e), release-started ended n)
Event-le (engine_comes {s} e) h n = rw (closing-shut s h n) (omega (arith, e), n)
Event-le (engine_fails {s} e) h n = (omega (arith, e), n)
Event-le (late_closes {s} e) h n = (omega (arith, e), n)
Event-le (opening_settles {s} e) h n =
    let ended = record s { opening = s.opening - 1; answered = s.answered - 1 } in
    (omega (arith, release-le ended, e), release-started ended n)
Event-le (resumes {s} e) h n = (rw e (omega arith), λ k. cc)
Event-le (close_settles {s} e) h n = (rw e (omega arith), λ k. cc)

-- A closing session has something that can happen, besides calls of `close`.
phase-Event :
    (s : Session) (p : ClosePromise)
    → s.close_promise ≡ p
    → IsSound s
    → IsPhase s p
    → p ≢ undefined
    → (s.lifecycle ≡ closed) ⊎ ((t : Session) × (e : Event s t) × (effort e ≡ 1))
unfolding effort
phase-Event s undefined e h ph n = absurd (n refl)
phase-Event s draining e h (life, none_yet, on, more) n = elim (Bool-cases (ltb 0 s.in_flight)) [
  | inl some ↦ inr (finish s, finishes (ground arith), refl)
  | inr none ↦ elim (Bool-cases (ltb 0 s.waiting)) [
    | inl some ↦ inr (engine_failed s, engine_fails (ground arith), refl)
    | inr none' ↦ elim (Bool-cases (ltb 0 s.late)) [
      | inl some ↦ inr (late_closed s, late_closes (ground arith), refl)
      | inr none'' ↦
          let some : 0 < s.answered = ground (arith, h.counted) in
          inr (opening_settled s, opening_settles some, refl)
    ]
  ]
]
phase-Event s resumed e h ph n = inr (close_resource s, resumes e, refl)
phase-Event s closing_resource e h ph n = inr (close_settled s, close_settles e, refl)
phase-Event s settled e h ph n = inl ph.0

-- The events of a run, calls of `close` left aside.
pub event_count : {s t : Session} → Run s t → ℕ
event_count start = 0
event_count (then_event r e) = effort e + event_count r

run_from :
    {s t : Session}
    → Run s t
    → IsSound s
    → s.close_promise ≢ undefined
    → IsSound t × (t.close_promise ≢ undefined)
run_from start h n = (h, n)
run_from (then_event r e) h n =
    let (k, m) = run_from r h n in (Event-IsSound e k, (Event-le e k m).1)

run_le :
    {s t : Session} (r : Run s t)
    → IsSound s
    → s.close_promise ≢ undefined
    → event_count r + remaining t ≤ remaining s
unfolding event_count
run_le start h n = omega arith
run_le (then_event r e) h n =
    let (k, m) = run_from r h n in omega (arith, run_le r h n, (Event-le e k m).0)

-- The events that are possible, one after the other, with as many rounds as are left at most.
ends :
    (fuel : ℕ) {s t : Session}
    → Run s t
    → IsSound t
    → t.close_promise ≢ undefined
    → remaining t ≤ fuel
    → (u : Session) × Run s u × (u.lifecycle ≡ closed)
ends zero {s} {t} r h n b = elim (phase-Event t t.close_promise refl h h.phase n) [
  | inl done ↦ (t, r, done)
  | inr more ↦ absurd (omega (arith, b, (Event-le (more.1) h n).0, more.2))
]
ends (suc fuel) {s} {t} r h n b = elim (phase-Event t t.close_promise refl h h.phase n) [
  | inl done ↦ (t, r, done)
  | inr more ↦
      let (t', event, one) = more in
      let (less, m) = Event-le event h n in
      ends fuel (then_event r event) (Event-IsSound event h) m (omega (arith, b, less, one))
]

started : (s : Session) → IsSound s → s.lifecycle ≢ still_open → s.close_promise ≢ undefined
started s h n e = let ph : IsPhase s undefined = subst (IsPhase s) e h.phase in n ph.0

-- A session of any run that is not open any more can be closed by events that are possible, and no run
-- from it has more events than remain, calls of `close` left aside, which may come at any time.
pub closing_ends :
    (s : Session)
    → Run fresh s
    → s.lifecycle ≢ still_open
    → ((t : Session) × Run s t × (t.lifecycle ≡ closed))
      × ((t : Session) (r : Run s t) → event_count r ≤ remaining s)
closing_ends s r n =
    let h = Run-IsSound s r in
    let m = started s h n in
    (ends (remaining s) start h m (omega arith), λ t q. omega (arith, run_le q h m))

close-le : (s : Session) → s.resource_closes ≤ (close s).resource_closes
unfolding start_close close_resource
close-le s = elim (ClosePromise-cases s.close_promise) [
  | inr n ↦ rw (close-again s n) (omega arith)
  | inl e ↦ rw (close-first s e) (elim (Bool-cases (ltb 0 (s.opening + s.in_flight))) [
    | inl k ↦ rw k (omega arith)
    | inr k ↦ rw k (omega arith)
  ])
]

closes_le : {s t : Session} → Event s t → s.resource_closes ≤ t.resource_closes
unfolding finish engine_opened engine_failed late_closed opening_settled close_resource
    close_settled release_opening release
closes_le (begins {s} {t} e) = rw (← (begin-eq-ok s t e).1) (omega arith)
closes_le (opens {s} {t} options e) = rw (← (open_handle-eq-ok options s t e).1) (omega arith)
closes_le (finishes {s} e) =
    elim (Bool-cases (s.opening + (s.in_flight - 1) == 0 && s.drain_resolve)) [
      | inl k ↦ rw k (omega arith)
      | inr k ↦ rw k (omega arith)
    ]
closes_le (engine_comes {s} e) = elim (Bool-cases (is_open s.lifecycle)) [
  | inl k ↦ rw k (omega arith)
  | inr k ↦ rw k (omega arith)
]
closes_le (engine_fails e) = omega arith
closes_le (late_closes e) = omega arith
closes_le (opening_settles {s} e) =
    elim (Bool-cases (s.opening - 1 + s.in_flight == 0 && s.drain_resolve)) [
      | inl k ↦ rw k (omega arith)
      | inr k ↦ rw k (omega arith)
    ]
closes_le (closes {s}) = close-le s
closes_le (resumes e) = omega arith
closes_le (close_settles e) = omega arith

run_closes_le : {s t : Session} → Run s t → s.resource_closes ≤ t.resource_closes
run_closes_le start = omega arith
run_closes_le (then_event r e) = omega (arith, run_closes_le r, closes_le e)

append_run : {s t u : Session} → Run s t → Run t u → Run s u
append_run r start = r
append_run r (then_event q e) = then_event (append_run r q) e

closed_phase :
    (s : Session) (p : ClosePromise)
    → IsPhase s p
    → 0 < s.resource_closes
    → (s.resource_closes ≡ 1) × (s.opening + s.in_flight ≡ 0)
closed_phase s undefined (life, none_yet, off) lt = absurd (omega (arith, none_yet, lt))
closed_phase s draining (life, none_yet, on, more) lt = absurd (omega (arith, none_yet, lt))
closed_phase s resumed (life, none_yet, done) lt = absurd (omega (arith, none_yet, lt))
closed_phase s closing_resource h lt = (h.1, h.2)
closed_phase s settled h lt = (h.1, h.2)

-- Once a run has closed the resource, no operation and no opening is under way in any later state, and
-- the resource is not closed again, however often `close` is called.
pub closed_stays :
    (s t : Session)
    → Run fresh s
    → Run s t
    → 0 < s.resource_closes
    → (t.resource_closes ≡ 1) × (t.opening + t.in_flight ≡ 0)
closed_stays s t r q lt =
    let h = Run-IsSound t (append_run r q) in
    closed_phase t t.close_promise h.phase (omega (arith, run_closes_le q, lt))
