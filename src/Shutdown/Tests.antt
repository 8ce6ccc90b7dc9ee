-- ===== src/Shutdown/Tests.antt =====
-- The shutdown of src/shutdown.rs at some events.
use mathlib.Core.Option
use kalatori_backend.Prelude.{◌≡◌, refl, true, false, List, [], ◌∷◌, some, none, ok}
use kalatori_backend.Errors.{Error}
use kalatori_backend.Shutdown.{
  PanicInfo, pretty_panic, after_panic, Event, task_failed, panicked, signalled, Waiting, happen,
  happen_all, receive, success, exit_code, user_requested,
}
use kalatori_backend.Shutdown.Reasons.{started, shutdown_reason}

abbrev oops : PanicInfo
oops = record { location = some "src/state.rs:1:2"; message = some "boom" }

printed :
    pretty_panic "https://github.com/Alzymologist/Kalatori-backend" oops false
    ≡ "A panic detected at src/state.rs:1:2:\n    boom."
unfolding pretty_panic
printed = refl

-- A second signal kills the process.
killed : happen_all (signalled ∷ signalled ∷ []) started ≡ none
unfolding happen_all happen receive Option.bind
killed = refl

-- A panic kills the process.
aborted : happen_all (panicked oops ∷ []) started ≡ none
unfolding happen_all happen after_panic Option.bind
aborted = refl

abbrev signal_then_error : List Event
signal_then_error = signalled ∷ task_failed ("Database server", Error.fatal) ∷ []

abbrev after : Waiting
after = record {
  notification = record { token = true; reason = user_requested };
  has_failed = false;
}

-- a signal and then an error: the daemon exits with success
shutdown_reason_example :
    (exit_code (ok after.notification.reason) ≡ success) × (after.notification.token ≡ true)
unfolding happen_all happen receive Option.bind
shutdown_reason_example = shutdown_reason signal_then_error after refl
