-- ===== src/Shutdown.antt =====
-- src/shutdown.rs, and the wait of src/task_tracker.rs: what starts the shutdown of the daemon, and
-- the reason that is kept for it.
pub mod Reasons
mod Tests
use mathlib.Core.Option
use mathlib.Core.Option.{bind}
use kalatori_backend.Prelude.{
  String, ◌==◌, Bool, true, false, not, ◌||◌, Option, none, some, List, [], ◌∷◌, Result, ok, err,
  if◌then◌else◌,
}
use Prim.Native.String.{◌++◌}
use kalatori_backend.Errors.{Error, shutdown_signal}

pub data ShutdownReason : Type 0 where
  user_requested unrecoverable_error : ShutdownReason

-- the token, by whether it is cancelled, and the reason behind its lock
pub record ShutdownNotification : Type 0 where
  pub token : Bool
  pub reason : ShutdownReason

abbrev pub new_notification : ShutdownNotification
new_notification = record { token = false; reason = user_requested }

abbrev pub is_ignited : ShutdownNotification → Bool
is_ignited n = n.token

unfoldable pub ignite : ShutdownNotification → ShutdownNotification
ignite n = record { token = true; reason = unrecoverable_error }

-- `CancellationToken::cancel`
unfoldable pub cancel : ShutdownNotification → ShutdownNotification
cancel n = record n { token = true }

-- `PanicInfo`, by the text of its location and its payload, if it is a string
pub record PanicInfo : Type 0 where
  pub location : Option String
  pub message : Option String

located : Option String → String
located none = ""
located (some location) = " at " ++ location

explained : Option String → String
explained none = ""
explained (some message) = ":\n    " ++ message

-- `Display for PrettyPanic`; `repository` is that of the package
unfoldable pub pretty_panic : String → PanicInfo → Bool → String
unfolding located explained
pretty_panic repository info first =
    "A panic detected"
    ++ located info.location
    ++ explained info.message
    ++ "."
    ++ (if first then "\n\nThis is a bug. Please report it at " ++ repository ++ "/issues." else "")

-- the match of the panic hook on the reason: `first`, and the reason that it leaves
hook_reason : ShutdownReason → Bool × ShutdownReason
hook_reason user_requested = (false, user_requested)
hook_reason unrecoverable_error = (true, unrecoverable_error)

-- The panic hook: what it prints, and what it leaves. In a thread of the runtime its `blocking_read`
-- panics, and a panic in the hook kills the process: `none`.
unfoldable pub panic_hook :
    Bool → String → PanicInfo → ShutdownNotification → Option (String × ShutdownNotification)
unfolding hook_reason cancel
panic_hook true repository info n = none
panic_hook false repository info n =
    let (first, reason) = hook_reason n.reason in
    some (pretty_panic repository info first, cancel (record n { reason = reason }))

-- How a panic is handled: `panic = "abort"` kills the process of a release after its hook, and the
-- others go on with what the hook leaves.
unfoldable pub after_panic :
    Bool → Bool → PanicInfo → ShutdownNotification → Option ShutdownNotification
unfolding panic_hook
after_panic true in_runtime info n = none
after_panic false in_runtime info n = Option.map (λ r. r.1) (panic_hook in_runtime "" info n)

-- What the listener waits for first: a signal, or that the token is cancelled.
pub data Wake : Type 0 where
  ctrl_c : Result String (Unit {0}) → Wake
  cancelled : Wake

-- What it waits for then: the end of the shutdown, or another signal.
pub data Rewake : Type 0 where
  completed : Rewake
  ctrl_c_again : Result String (Unit {0}) → Rewake

pub data Listened : Type 0 where
  finished aborted : Listened
  failed : Error → Listened

-- the second `select!` of the listener
listen_again : Rewake → Listened
listen_again completed = finished
listen_again (ctrl_c_again (err e)) = failed (shutdown_signal e)
listen_again (ctrl_c_again (ok done)) = aborted

unfoldable pub listener : Wake → Rewake → ShutdownNotification → Listened × ShutdownNotification
unfolding listen_again cancel
listener cancelled later n = (listen_again later, n)
listener (ctrl_c (err e)) later n = (failed (shutdown_signal e), n)
listener (ctrl_c (ok done)) later n = (listen_again later, cancel n)

-- what a task that `TaskTracker::spawn` runs sends when it ends
unfoldable pub spawned : String → Result Error String → List (String × Error)
spawned name (ok shutdown_message) = []
spawned name (err error) = (name, error) ∷ []

-- The wait for the tasks: the errors that it received so far change whether it has failed.
pub record Waiting : Type 0 where
  pub notification : ShutdownNotification
  pub has_failed : Bool

-- `wait_with_notification`, on one error of a task
unfoldable pub receive : String × Error → Waiting → Waiting
unfolding ignite
receive error w =
    if w.has_failed || not (is_ignited w.notification)
    then record { notification = ignite w.notification; has_failed = true }
    else w

-- What happens to the daemon, in the order in which it happens.
pub data Event : Type 0 where
  task_failed : String × Error → Event
  panicked : PanicInfo → Event
  signalled : Event

-- A signal wakes the listener of a running daemon, and makes that of a daemon which shuts down
-- kill the process.
on_signal : Bool → Waiting → Option Waiting
unfolding listener cancel
on_signal false w =
    some (record w { notification = (listener (ctrl_c (ok tt)) completed w.notification).1 })
on_signal true w = elim (listener cancelled (ctrl_c_again (ok tt)) w.notification).0 [
  | aborted ↦ none
  | _ ↦ some w
]

-- Of a release; `none` is a killed process.
unfoldable pub happen : Event → Waiting → Option Waiting
unfolding receive after_panic on_signal
happen (task_failed error) w = some (receive error w)
happen (panicked info) w =
    Option.map (λ n. record w { notification = n }) (after_panic true true info w.notification)
happen signalled w = on_signal (is_ignited w.notification) w

unfoldable pub happen_all : List Event → Waiting → Option Waiting
unfolding happen
happen_all [] w = some w
happen_all (e ∷ rest) w = bind (happen e w) (λ w'. happen_all rest w')

-- what the main loop waited for first: the tasks, and then the listener, or the listener's error
pub data Ended : Type 0 where
  tasks_ended : ShutdownReason → Listened → Ended
  listener_ended : Error → Ended

-- the last `select!` of `async_try_main`; `none` is a killed process
unfoldable pub main_loop : Ended → Option (Result Error ShutdownReason)
main_loop (tasks_ended reason finished) = some (ok reason)
main_loop (tasks_ended reason (failed e)) = some (err e)
main_loop (tasks_ended reason aborted) = none
main_loop (listener_ended e) = some (err e)

-- `main`
pub data ExitCode : Type 0 where
  success failure : ExitCode

unfoldable pub exit_code : Result Error ShutdownReason → ExitCode
exit_code (ok user_requested) = success
exit_code (ok unrecoverable_error) = failure
exit_code (err e) = failure
