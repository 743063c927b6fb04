-- ===== src/Session/Tests.antt =====
-- A run of a session, and its laws at it: an operation begins, the session is closed meanwhile, the
-- operation ends, and the resource is closed. `close` is called again while it waits and at the end.
use attunegraph.Common.{◌≡◌, ◌≤◌, ◌+◌, refl, arith, true, err, codes}
use attunegraph.Session.{
  closing, closed, draining, resumed, closing_resource, settled, closed_error, invalid_input,
  Session, fresh, is_open, wake, release, begin, finish, open_handle, handle_options_ok,
  is_bounded_text, close_resource, start_close, close, close_settled,
}
use attunegraph.Session.Life.{
  begins, finishes, closes, resumes, close_settles, Run, start, then_event, IsSound, Run-IsSound,
}
use attunegraph.Session.Closing.{event_count, remaining, closing_ends, closed_stays}

abbrev running : Session
running = record fresh { in_flight = 1 }

abbrev waiting_close : Session
waiting_close = record running {
  lifecycle = closing;
  drain_resolve = true;
  close_promise = draining;
}

to_running : Run fresh running
unfolding begin is_open
to_running = then_event start (begins refl)

to_waiting : Run fresh waiting_close
unfolding close start_close
to_waiting = then_event to_running closes

abbrev drained : Session
drained = record waiting_close { in_flight = 0; close_promise = resumed }

to_waiting_again : Run fresh waiting_close
unfolding close
to_waiting_again = then_event to_waiting closes

to_drained : Run fresh drained
unfolding finish release wake
to_drained = then_event to_waiting_again (finishes (omega arith))

abbrev resource_closing : Session
resource_closing = record drained { close_promise = closing_resource; resource_closes = 1 }

to_resource_closing : Run fresh resource_closing
unfolding close_resource
to_resource_closing = then_event to_drained (resumes refl)

abbrev all_closed : Session
all_closed = record resource_closing { lifecycle = closed; close_promise = settled }

to_closed : Run resource_closing all_closed
unfolding close_settled close
to_closed = then_event (then_event start (close_settles refl)) closes

-- A session that is being closed refuses, before it looks at the options.
refused :
    (begin waiting_close ≡ err closed_error)
    × (open_handle (record { source_id = codes ""; thread_id = codes "t" }) waiting_close
        ≡ err closed_error)
    × (open_handle (record { source_id = codes ""; thread_id = codes "t" }) running
        ≡ err invalid_input)
unfolding begin is_open open_handle handle_options_ok is_bounded_text
refused = (refl, refl, refl)

Run-IsSound_example : IsSound waiting_close
Run-IsSound_example = Run-IsSound waiting_close to_waiting

closing_ends_example :
    ((t : Session) × Run waiting_close t × (t.lifecycle ≡ closed))
    × ((t : Session) (r : Run waiting_close t) → event_count r ≤ remaining waiting_close)
closing_ends_example = closing_ends waiting_close to_waiting (λ e. cc)

closed_stays_example :
    (all_closed.resource_closes ≡ 1) × (all_closed.opening + all_closed.in_flight ≡ 0)
closed_stays_example =
    closed_stays resource_closing all_closed to_resource_closing to_closed (omega arith)
