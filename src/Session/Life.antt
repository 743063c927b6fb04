-- ===== src/Session/Life.antt =====
-- The runs of a session of src/local-session-internal.ts, and proofs about all of them.
use attunegraph.Common.{
  ℕ, suc, ◌+◌, ◌&&◌, ◌==◌, ◌<◌, ◌≡◌, ◌≢◌, ◌⊎◌, refl, Bool, true, false, inl, inr, Bool-cases, ltb,
  arith, ok, err, ◌-◌, ◌∙◌, subst, Result,
}
use attunegraph.Session.{
  Lifecycle, still_open, closing, closed, ClosePromise, undefined, draining, resumed,
  closing_resource, settled, SessionError, Session, HandleOptions, fresh, is_open, wake, release,
  release_opening, begin, finish, open_handle, engine_opened, engine_failed, late_closed,
  opening_settled, handle_options_ok, close_resource, start_close, close, close_settled,
}

-- What happens to a session: calls that are accepted, and promises that settle. `close` may be called
-- at any time, again and again.
pub data Event : Session → Session → Type 0 where
  begins : {s t : Session} → begin s ≡ ok t → Event s t
  finishes : {s : Session} → 0 < s.in_flight → Event s (finish s)
  opens : {s t : Session} (options : HandleOptions) → open_handle options s ≡ ok t → Event s t
  engine_comes : {s : Session} → 0 < s.waiting → Event s (engine_opened s)
  engine_fails : {s : Session} → 0 < s.waiting → Event s (engine_failed s)
  late_closes : {s : Session} → 0 < s.late → Event s (late_closed s)
  opening_settles : {s : Session} → 0 < s.answered → Event s (opening_settled s)
  closes : {s : Session} → Event s (close s)
  resumes : {s : Session} → s.close_promise ≡ resumed → Event s (close_resource s)
  close_settles : {s : Session} → s.close_promise ≡ closing_resource → Event s (close_settled s)

pub data Run (s : Session) : Session → Type 0 where
  start : Run s s
  then_event : {t u : Session} → Run s t → Event t u → Run s u

-- How many times the resource is to have been closed, whether something may be under way, and the
-- life, as the promise of `close` says.
abbrev pub IsPhase : Session → ClosePromise → Type 0
IsPhase s undefined =
    (s.lifecycle ≡ still_open) × (s.resource_closes ≡ 0) × (s.drain_resolve ≡ false)
IsPhase s draining =
    (s.lifecycle ≡ closing)
    × (s.resource_closes ≡ 0)
    × (s.drain_resolve ≡ true)
    × (0 < s.opening + s.in_flight)
IsPhase s resumed =
    (s.lifecycle ≡ closing) × (s.resource_closes ≡ 0) × (s.opening + s.in_flight ≡ 0)
IsPhase s closing_resource =
    (s.lifecycle ≡ closing) × (s.resource_closes ≡ 1) × (s.opening + s.in_flight ≡ 0)
IsPhase s settled = (s.lifecycle ≡ closed) × (s.resource_closes ≡ 1) × (s.opening + s.in_flight ≡ 0)

pub record IsSound (s : Session) : Type 0 where
  pub counted : s.opening ≡ s.waiting + s.late + s.answered
  pub phase : IsPhase s s.close_promise

fresh-IsSound : IsSound fresh
fresh-IsSound = record { counted = omega arith; phase = (refl, refl, refl) }

-- What a release needs, in a state where something has just ended.
abbrev IsEnding : Lifecycle → ℕ → Bool → ClosePromise → Type 0
IsEnding life count drain undefined = (life ≡ still_open) × (count ≡ 0) × (drain ≡ false)
IsEnding life count drain draining = (life ≡ closing) × (count ≡ 0) × (drain ≡ true)
IsEnding life count drain resumed = ⊥
IsEnding life count drain closing_resource = ⊥
IsEnding life count drain settled = ⊥

release-IsPhase :
    (s : Session) (p : ClosePromise)
    → s.close_promise ≡ p
    → IsEnding s.lifecycle s.resource_closes s.drain_resolve p
    → IsPhase (release s) (release s).close_promise
unfolding release wake
release-IsPhase s undefined e (life, none_yet, off) =
    let stays : (s.opening + s.in_flight == 0 && s.drain_resolve) ≡ false = ground arith in
    rw (stays, e) (life, none_yet, off)
release-IsPhase s draining e (life, none_yet, on) =
    elim (Bool-cases (s.opening + s.in_flight == 0)) [
      | inl done ↦ rw (done, on, e) (life, none_yet, ground arith)
      | inr more ↦ rw (more, e) (life, none_yet, on, ground arith)
    ]
release-IsPhase s resumed e h = absurd h
release-IsPhase s closing_resource e h = absurd h
release-IsPhase s settled e h = absurd h

release-IsSound :
    (s : Session)
    → s.opening ≡ s.waiting + s.late + s.answered
    → IsEnding s.lifecycle s.resource_closes s.drain_resolve s.close_promise
    → IsSound (release s)
unfolding release
release-IsSound s counted h = record {
  counted = elim (Bool-cases (s.opening + s.in_flight == 0 && s.drain_resolve)) [
    | inl e ↦ rw e counted
    | inr e ↦ rw e counted
  ];
  phase = release-IsPhase s s.close_promise refl h;
}

-- While something is under way, it can end.
phase-IsEnding :
    (s : Session) (p : ClosePromise)
    → IsPhase s p
    → 0 < s.opening + s.in_flight
    → IsEnding s.lifecycle s.resource_closes s.drain_resolve p
phase-IsEnding s undefined h lt = h
phase-IsEnding s draining (life, none_yet, on, more) lt = (life, none_yet, on)
phase-IsEnding s resumed (life, none_yet, done) lt = absurd (omega (arith, done, lt))
phase-IsEnding s closing_resource (life, none_yet, done) lt = absurd (omega (arith, done, lt))
phase-IsEnding s settled (life, none_yet, done) lt = absurd (omega (arith, done, lt))

-- A session is open until `close` is called.
pub phase-open :
    (s : Session) (p : ClosePromise) → IsPhase s p → is_open s.lifecycle ≡ true → p ≡ undefined
unfolding is_open
phase-open s undefined h o = refl
phase-open s draining (life, n, d, h) o = absurd (ground arith)
phase-open s resumed (life, n, h) o = absurd (ground arith)
phase-open s closing_resource (life, n, h) o = absurd (ground arith)
phase-open s settled (life, n, h) o = absurd (ground arith)

-- What is counted while the session is open changes no other part of its phase.
open-IsSound :
    (s t : Session)
    → IsSound s
    → is_open s.lifecycle ≡ true
    → t.close_promise ≡ s.close_promise
    → t.lifecycle ≡ s.lifecycle
    → t.resource_closes ≡ s.resource_closes
    → t.drain_resolve ≡ s.drain_resolve
    → t.opening ≡ t.waiting + t.late + t.answered
    → IsSound t
open-IsSound s t h o same life count drain counted =
    let p = phase-open s s.close_promise h.phase o in
    let ph : IsPhase s undefined = subst (IsPhase s) p h.phase in
    record { counted = counted; phase = rw (same, p) (life ∙ ph.0, count ∙ ph.1, drain ∙ ph.2) }

ok-injective : {s t : Session} → Path (Result SessionError Session) (ok s) (ok t) → s ≡ t
ok-injective h = cc

err-ok : {e : SessionError} {t : Session} → Path (Result SessionError Session) (err e) (ok t) → ⊥
err-ok h = cc

pub begin-eq-ok :
    (s t : Session)
    → begin s ≡ ok t
    → (is_open s.lifecycle ≡ true) × (record s { in_flight = suc s.in_flight } ≡ t)
unfolding begin
begin-eq-ok s t e = elim (Bool-cases (is_open s.lifecycle)) [
  | inl o ↦ (o, ok-injective (rw o at e))
  | inr o ↦ absurd (err-ok (rw o at e))
]

pub open_handle-eq-ok :
    (options : HandleOptions) (s t : Session)
    → open_handle options s ≡ ok t
    → (is_open s.lifecycle ≡ true)
      × (record s { opening = suc s.opening; waiting = suc s.waiting } ≡ t)
unfolding open_handle
open_handle-eq-ok options s t e = elim (Bool-cases (is_open s.lifecycle)) [
  | inr o ↦ absurd (err-ok (rw o at e))
  | inl o ↦ elim (Bool-cases (handle_options_ok options)) [
    | inl fine ↦ (o, ok-injective (rw (o, fine) at e))
    | inr bad ↦ absurd (err-ok (rw (o, bad) at e))
  ]
]

start_close-IsSound :
    (s : Session) → IsSound s → s.close_promise ≡ undefined → IsSound (start_close s)
unfolding start_close close_resource
start_close-IsSound s h e =
    let ph : IsPhase s undefined = subst (IsPhase s) e h.phase in
    elim (Bool-cases (ltb 0 (s.opening + s.in_flight))) [
      | inl busy ↦
          rw busy (record { counted = h.counted; phase = (refl, ph.1, refl, ground arith) })
      | inr idle ↦
          rw idle
            (record { counted = h.counted; phase = (refl, omega (arith, ph.1), ground arith) })
    ]

pub close-first : (s : Session) → s.close_promise ≡ undefined → close s ≡ start_close s
unfolding close
close-first s e = rw e refl

close-same : (s : Session) (p : ClosePromise) → s.close_promise ≡ p → p ≢ undefined → close s ≡ s
unfolding close
close-same s undefined e n = absurd (n refl)
close-same s draining e n = rw e refl
close-same s resumed e n = rw e refl
close-same s closing_resource e n = rw e refl
close-same s settled e n = rw e refl

-- A further call of `close` changes nothing.
pub close-again : (s : Session) → s.close_promise ≢ undefined → close s ≡ s
close-again s n = close-same s s.close_promise refl n

pub ClosePromise-cases : (p : ClosePromise) → (p ≡ undefined) ⊎ (p ≢ undefined)
ClosePromise-cases undefined = inl refl
ClosePromise-cases draining = inr (λ e. cc)
ClosePromise-cases resumed = inr (λ e. cc)
ClosePromise-cases closing_resource = inr (λ e. cc)
ClosePromise-cases settled = inr (λ e. cc)

pub Event-IsSound : {s t : Session} → Event s t → IsSound s → IsSound t
unfolding finish engine_opened engine_failed late_closed opening_settled close_resource
    close_settled release_opening
Event-IsSound (begins {s} {t} e) h =
    let (o, same) = begin-eq-ok s t e in
    rw (← same)
      (open-IsSound s (record s { in_flight = suc s.in_flight }) h o refl refl refl refl h.counted)
Event-IsSound (finishes {s} e) h =
    release-IsSound (record s { in_flight = s.in_flight - 1 }) h.counted
      (phase-IsEnding s s.close_promise h.phase (omega (arith, e)))
Event-IsSound (opens {s} {t} options e) h =
    let (o, same) = open_handle-eq-ok options s t e in
    rw (← same) (
      open-IsSound s (record s { opening = suc s.opening; waiting = suc s.waiting }) h o refl refl
        refl refl (omega (arith, h.counted)))
Event-IsSound (engine_comes {s} e) h = elim (Bool-cases (is_open s.lifecycle)) [
  | inl o ↦ rw o (record { counted = omega (arith, h.counted, e); phase = h.phase })
  | inr o ↦ rw o (record { counted = omega (arith, h.counted, e); phase = h.phase })
]
Event-IsSound (engine_fails e) h = record { counted = omega (arith, h.counted, e); phase = h.phase }
Event-IsSound (late_closes e) h = record { counted = omega (arith, h.counted, e); phase = h.phase }
Event-IsSound (opening_settles {s} e) h =
    release-IsSound (record s { opening = s.opening - 1; answered = s.answered - 1 })
      (omega (arith, h.counted, e))
      (phase-IsEnding s s.close_promise h.phase (omega (arith, h.counted, e)))
Event-IsSound (closes {s}) h = elim (ClosePromise-cases s.close_promise) [
  | inl e ↦ rw (close-first s e) (start_close-IsSound s h e)
  | inr n ↦ rw (close-again s n) h
]
Event-IsSound (resumes {s} e) h =
    let ph : IsPhase s resumed = subst (IsPhase s) e h.phase in
    record { counted = h.counted; phase = (ph.0, omega (arith, ph.1), ph.2) }
Event-IsSound (close_settles {s} e) h =
    let ph : IsPhase s closing_resource = subst (IsPhase s) e h.phase in
    record { counted = h.counted; phase = (refl, ph.1, ph.2) }

-- In every run, where `close` may be called at any time, the handles being opened are those that wait, that close a late engine or that are
-- answered; the resource is closed once at most, and not before nothing is under way any more; a
-- `close` that waits has something to wait for; and the life is that of the promise of `close`.
pub Run-IsSound : (s : Session) → Run fresh s → IsSound s
Run-IsSound s start = fresh-IsSound
Run-IsSound s (then_event {t} r e) = Event-IsSound e (Run-IsSound t r)
