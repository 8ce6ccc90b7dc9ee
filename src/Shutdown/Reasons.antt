-- ===== src/Shutdown/Reasons.antt =====
-- Which events leave which reason for the shutdown (src/shutdown.rs, src/task_tracker.rs).
use kalatori_backend.Prelude.{
  Option-cases, inl, inr, if◌then◌else◌, String, ◌≡◌, refl, Bool, true, false, List, [], ◌∷◌, ok,
  arith, Option, none, some, some-inj, sym, ◌∙◌, ap,
}
use mathlib.Core.Option
use mathlib.Core.Option.{none-ne-some}
use kalatori_backend.Errors.{Error}
use kalatori_backend.Shutdown.{
  user_requested, unrecoverable_error, new_notification, ignite, cancel, after_panic, listener,
  listen_again, Waiting, receive, Event, task_failed, panicked, signalled, happen, happen_all,
  success, failure, exit_code, on_signal,
}

abbrev pub started : Waiting
started = record { notification = new_notification; has_failed = false }

-- The phases of a daemon: it runs, it ends as asked, or it ends with an error.
pub data Phase : Type 0 where
  running leaving broken : Phase

abbrev pub waiting_in : Phase → Waiting
waiting_in running = started
waiting_in leaving = record {
  notification = record { token = true; reason = user_requested };
  has_failed = false;
}
waiting_in broken = record {
  notification = record { token = true; reason = unrecoverable_error };
  has_failed = true;
}

infix 40 ◌⟶◌ ◌⟶*◌
-- Only an error of a task breaks a running daemon. A signal makes it leave, and what happens to it
-- then does not change how it ends.
pub data ◌⟶◌ : Phase → Phase → Type 0 where
  break : running ⟶ broken
  leave : running ⟶ leaving
  keep_leaving : leaving ⟶ leaving
  keep_broken : broken ⟶ broken

pub data ◌⟶*◌ : Phase → Phase → Type 0 where
  here : {p : Phase} → p ⟶* p
  onward : {p q r : Phase} → p ⟶ q → q ⟶* r → p ⟶* r

-- what an event makes of a phase, unless it kills the process
unfoldable pub phase_after : Event → Phase → Option Phase
phase_after (task_failed e) running = some broken
phase_after (panicked i) p = none
phase_after signalled running = some leaving
phase_after signalled leaving = none
phase_after signalled broken = none
phase_after _ leaving = some leaving
phase_after _ broken = some broken

happen_phase :
    (e : Event) (p : Phase) → happen e (waiting_in p) ≡ Option.map waiting_in (phase_after e p)
unfolding happen on_signal receive ignite after_panic listener listen_again cancel phase_after
happen_phase (task_failed e) running = refl
happen_phase (panicked i) running = refl
happen_phase signalled running = refl
happen_phase (task_failed e) leaving = refl
happen_phase (panicked i) leaving = refl
happen_phase signalled leaving = refl
happen_phase (task_failed e) broken = refl
happen_phase (panicked i) broken = refl
happen_phase signalled broken = refl

phase_after-⟶ : (e : Event) (p q : Phase) → phase_after e p ≡ some q → p ⟶ q
unfolding phase_after
phase_after-⟶ (task_failed e) running q h = rw (← some-inj h) break
phase_after-⟶ signalled running q h = rw (← some-inj h) leave
phase_after-⟶ (task_failed e) leaving q h = rw (← some-inj h) keep_leaving
phase_after-⟶ signalled leaving q h = absurd (ground arith)
phase_after-⟶ (task_failed e) broken q h = rw (← some-inj h) keep_broken
phase_after-⟶ (panicked i) p q h = absurd (none-ne-some q h)
phase_after-⟶ signalled broken q h = absurd (ground arith)

happen_all-next :
    (e : Event) (rest : List Event) (p q : Phase) (w : Waiting)
    → phase_after e p ≡ some q
    → happen_all (e ∷ rest) (waiting_in p) ≡ some w
    → happen_all rest (waiting_in q) ≡ some w
unfolding happen_all Option.bind
happen_all-next e rest p q w lives h = rw (happen_phase e p, lives) at h

-- the phases after events, from any phase
run-⟶* :
    (es : List Event) (p : Phase) (w : Waiting)
    → happen_all es (waiting_in p) ≡ some w
    → (q : Phase) × (w ≡ waiting_in q) × (p ⟶* q)
unfolding happen_all Option.bind
run-⟶* [] p w h = (p, sym (some-inj h), here)
run-⟶* (e ∷ rest) p w h = elim (Option-cases (phase_after e p)) [
  | inl killed ↦ absurd (none-ne-some w (rw (happen_phase e p, killed) at h))
  | inr (q, lives) ↦
      let (r, end, path) = run-⟶* rest q w (happen_all-next e rest p q w lives h) in
      (r, end, onward (phase_after-⟶ e p q lives) path)
]

leaving_stays : {q : Phase} → leaving ⟶* q → q ≡ leaving
leaving_stays here = refl
leaving_stays (onward keep_leaving r) = leaving_stays r

broken_stays : {q : Phase} → broken ⟶* q → q ≡ broken
broken_stays here = refl
broken_stays (onward keep_broken r) = broken_stays r

-- whether the first event is the failure of a task
abbrev pub fails_first : List Event → Bool
fails_first (task_failed e ∷ rest) = true
fails_first _ = false

abbrev pub is_empty {ℓ} : {A : Type ℓ} → List A → Bool
is_empty [] = true
is_empty (x ∷ xs) = false

after_failure :
    (e : String × Error) (rest : List Event) (w : Waiting)
    → happen_all (task_failed e ∷ rest) started ≡ some w
    → w ≡ waiting_in broken
unfolding phase_after
after_failure e rest w h =
    let (q, end, path) =
      run-⟶* rest broken w (happen_all-next (task_failed e) rest running broken w refl h) in
    end ∙ ap waiting_in (broken_stays path)

after_leave :
    (e : Event) (rest : List Event) (w : Waiting)
    → phase_after e running ≡ some leaving
    → happen_all (e ∷ rest) started ≡ some w
    → w ≡ waiting_in leaving
after_leave e rest w leaves h =
    let (q, end, path) =
      run-⟶* rest leaving w (happen_all-next e rest running leaving w leaves h) in
    end ∙ ap waiting_in (leaving_stays path)

-- Let events happen to a started daemon that leave its process alive: no panic, and no signal after
-- another event. Then the exit code is a failure exactly if the first event is the error of a task,
-- and the shutdown goes on exactly if there was an event.
pub shutdown_reason :
    (es : List Event) (w : Waiting)
    → happen_all es started ≡ some w
    → (exit_code (ok w.notification.reason) ≡ (if fails_first es then failure else success))
      × (w.notification.token ≡ (if is_empty es then false else true))
unfolding exit_code happen_all phase_after Option.bind
shutdown_reason [] w h = rw (← some-inj h) (refl, refl)
shutdown_reason (task_failed e ∷ rest) w h = rw (after_failure e rest w h) (refl, refl)
shutdown_reason (panicked i ∷ rest) w h = absurd (none-ne-some w h)
shutdown_reason (signalled ∷ rest) w h = rw (after_leave signalled rest w refl h) (refl, refl)
