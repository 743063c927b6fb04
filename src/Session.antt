-- ===== src/Session.antt =====
-- src/local-session-internal.ts: the life of a session, whose handles run operations until it is
-- closed. The database behind it and the engines are not under this file: their promises settle at
-- some step.
pub mod Life
pub mod Closing
mod Tests
use attunegraph.Common.{
  ℕ, suc, ◌+◌, ◌-◌, Bool, true, false, ◌&&◌, not, length, ltb, leb, ◌==◌, text_eq, if◌then◌else◌,
  Text, Result, ok, err,
}
use attunegraph.Validation.{trim}

pub data Lifecycle : Type 0 where
  still_open closing closed : Lifecycle

-- The promise of `close`: not asked for, waiting for the operations under way, about to go on, waiting
-- for the resource, settled.
pub data ClosePromise : Type 0 where
  undefined draining resumed closing_resource settled : ClosePromise

-- The codes of the errors that a session throws.
pub data SessionError : Type 0 where
  closed_error invalid_input : SessionError

-- The variables of `openLocalAttuneGraphSessionWithStoreOptions`. The handles that are being opened
-- wait for their engine, or close an engine that came too late, or are answered and not yet counted
-- off; and `resource.close` has been called some times.
pub record Session : Type 0 where
  pub lifecycle : Lifecycle
  pub opening : ℕ
  pub in_flight : ℕ
  pub drain_resolve : Bool
  pub close_promise : ClosePromise
  pub waiting : ℕ
  pub late : ℕ
  pub answered : ℕ
  pub resource_closes : ℕ

pub record HandleOptions : Type 0 where
  pub source_id : Text
  pub thread_id : Text

abbrev pub fresh : Session
fresh = record {
  lifecycle = still_open;
  opening = 0;
  in_flight = 0;
  drain_resolve = false;
  close_promise = undefined;
  waiting = 0;
  late = 0;
  answered = 0;
  resource_closes = 0;
}

unfoldable pub is_open : Lifecycle → Bool
is_open still_open = true
is_open closing = false
is_open closed = false

-- The test of `boundedText` on a string.
unfoldable pub is_bounded_text : Text → Bool
is_bounded_text value =
    not (length value == 0) && text_eq value (trim value) && leb (length value) 512

-- `normalizeHandleOptions` of options of the declared type.
unfoldable pub handle_options_ok : HandleOptions → Bool
unfolding is_bounded_text
handle_options_ok options = is_bounded_text options.source_id && is_bounded_text options.thread_id

-- `drainResolve?.()`, which changes a promise that waits.
unfoldable pub wake : ClosePromise → ClosePromise
wake draining = resumed
wake promise = promise

unfoldable pub release : Session → Session
unfolding wake
release s =
    if s.opening + s.in_flight == 0 && s.drain_resolve
    then record s { close_promise = wake s.close_promise }
    else s

unfoldable pub release_opening : Session → Session
unfolding release
release_opening s = release (record s { opening = s.opening - 1 })

-- `begin`: the operation is called and counted, or refused.
unfoldable pub begin : Session → Result SessionError Session
unfolding is_open
begin s =
    if is_open s.lifecycle then ok (record s { in_flight = suc s.in_flight }) else err closed_error

-- The `finally` of `begin`.
unfoldable pub finish : Session → Session
unfolding release
finish s = release (record s { in_flight = s.in_flight - 1 })

-- `open` of a session, until it waits for the engine.
unfoldable pub open_handle : HandleOptions → Session → Result SessionError Session
unfolding is_open handle_options_ok
open_handle options s =
    if not (is_open s.lifecycle)
    then err closed_error
    else if handle_options_ok options
    then ok (record s { opening = suc s.opening; waiting = suc s.waiting })
    else err invalid_input

-- The callback of `then`: a handle is answered if the session is open, else the engine is closed.
unfoldable pub engine_opened : Session → Session
unfolding is_open
engine_opened s =
    if is_open s.lifecycle
    then record s { waiting = s.waiting - 1; answered = suc s.answered }
    else record s { waiting = s.waiting - 1; late = suc s.late }

-- `openAttuneGraph` throws.
unfoldable pub engine_failed : Session → Session
engine_failed s = record s { waiting = s.waiting - 1; answered = suc s.answered }

-- `engine.close()` of a late engine has settled.
unfoldable pub late_closed : Session → Session
late_closed s = record s { late = s.late - 1; answered = suc s.answered }

-- The `finally` of `open`.
unfoldable pub opening_settled : Session → Session
unfolding release_opening
opening_settled s = release_opening (record s { answered = s.answered - 1 })

-- `resource.close()` is called.
unfoldable pub close_resource : Session → Session
close_resource s = record s {
  close_promise = closing_resource;
  resource_closes = suc s.resource_closes;
}

-- The first call of `close`.
unfoldable pub start_close : Session → Session
unfolding close_resource
start_close s =
    if ltb 0 (s.opening + s.in_flight)
    then record s { lifecycle = closing; drain_resolve = true; close_promise = draining }
    else close_resource (record s { lifecycle = closing })

-- `close` of a session.
unfoldable pub close : Session → Session
unfolding start_close
close s = elim s.close_promise [
  | undefined ↦ start_close s
  | draining ↦ s
  | resumed ↦ s
  | closing_resource ↦ s
  | settled ↦ s
]

-- The `finally` of `close`.
unfoldable pub close_settled : Session → Session
close_settled s = record s { lifecycle = closed; close_promise = settled }
