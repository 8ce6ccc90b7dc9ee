-- ===== src/Start/SeedErrors.antt =====
-- A start of src/main.rs with a seed phrase that the signer does not accept.
use mathlib.Core.Option
use kalatori_backend.Prelude.{
  ℕ, String, ◌≡◌, refl, true, Option, none, some, List, [], ◌∷◌, ◌++◌, map, ok, err, ap, sym, subst,
  ◌∙◌,
}
use kalatori_backend.Errors.{Error, SignerError, signer_down}
use kalatori_backend.Seeds.{SeedEnvVars}
use kalatori_backend.Signer
use kalatori_backend.Signer.{Signer, Crypto, entropy_from_phrase}
use kalatori_backend.Database.{Storage}
use kalatori_backend.Database.Server.{Env, Setup}
use kalatori_backend.Shutdown.{
  spawned, Waiting, Event, task_failed, happen_all, failure, exit_code, finished, tasks_ended,
  main_loop,
}
use kalatori_backend.Shutdown.Reasons.{started, shutdown_reason}
use kalatori_backend.Start.{Config, Machine, Daemon, signer_task, async_try_main}
use kalatori_backend.Start.Restoring.{async_try_main-Starts}

module _ {Db Tree Slot Pair WordSet : Type 0} (machine : Machine Db Tree) (s : Storage Slot Tree)
    (setup : Setup Slot) (c : Crypto Pair WordSet) where
  -- what the signer is after a phrase that is not accepted
  pub refused_init :
      (recipient : List ℕ) (seed : String) (e : SignerError)
      → entropy_from_phrase c seed ≡ err e
      → Signer.init c recipient seed
        ≡ (record { recipient = recipient; seed_entropy = none }, some e)
  unfolding Signer.init
  refused_init recipient seed e h = rw h refl

  -- Let the daemon start with a seed phrase that the signer does not accept. The task of the signer
  -- then sends this error, no account is derived for an order, and whatever happens after the error, if
  -- it leaves the process alive, with neither a panic nor a signal, the daemon is shut down and its
  -- exit code is a failure.
  pub refused_seed_stops :
      (env : Env) (recipient_string : String) (remark : Option String) (config : Config)
      (seed_env_vars : SeedEnvVars) (d : Daemon Tree) (e : SignerError) (rest : List Event)
      (w : Waiting) (id : String) (ss58 : ℕ)
      → async_try_main machine s setup c env recipient_string remark config seed_env_vars ≡ ok d
      → entropy_from_phrase c seed_env_vars.seed ≡ err e
      → happen_all (map task_failed (spawned "Signer" (signer_task d.signer_error)) ++ rest) started
        ≡ some w
      → (spawned "Signer" (signer_task d.signer_error) ≡ ("Signer", Error.signer e) ∷ [])
        × (Signer.public c d.state.signer id ss58 ≡ err signer_down)
        × (w.notification.token ≡ true)
        × (Option.map exit_code (main_loop (tasks_ended w.notification.reason finished))
            ≡ some failure)
  unfolding spawned signer_task Signer.public main_loop
  refused_seed_stops env recipient_string remark config seed_env_vars d e rest w id ss58 started_ok
        refused happened =
      let starts =
        async_try_main-Starts machine s setup c env recipient_string remark config seed_env_vars d
          started_ok in
      let made = refused_init d.state.recipient seed_env_vars.seed e refused in
      let both = sym made ∙ starts.signs in
      let failed : some e ≡ d.signer_error =
        ap (λ (x : Signer.Signer × Option SignerError). x.1) both in
      let gone : record { recipient = d.state.recipient; seed_entropy = none } ≡ d.state.signer =
        ap (λ (x : Signer.Signer × Option SignerError). x.0) both in
      let (code, token) = shutdown_reason (task_failed ("Signer", Error.signer e) ∷ rest) w (
        subst
          (λ (x : Option SignerError).
            happen_all (map task_failed (spawned "Signer" (signer_task x)) ++ rest) started
            ≡ some w)
          (sym failed) happened) in
      (
        subst
            (λ (x : Option SignerError).
              spawned "Signer" (signer_task x) ≡ ("Signer", Error.signer e) ∷ [])
            failed refl,
        subst (λ (x : Signer.Signer). Signer.public c x id ss58 ≡ err signer_down) gone refl,
        token,
        ap some code,
      )
