-- ===== src/Execution/Service/Lifecycle.antt =====
-- An environment that was cleaned up runs no command.
use aura_automated_user_rag.Base.{
  ℕ, true, false, Option, none, some, ◌≡◌, refl, ◌∙◌, ◌==◌, ==_iff, select, modify, select-modify,
  key-select, Result, ok, raise, value_error,
}
use aura_automated_user_rag.Domain.Events.{Ambient}
use aura_automated_user_rag.Domain.Executions.{ExecutionEnvironment, ExecutionCommand}
use aura_automated_user_rag.Store.{Database}
use aura_automated_user_rag.Store.Rows.{append_event}
use aura_automated_user_rag.Store.AgentRows.{
  environment_key, get_environment, update_environment, write_environment,
}
use aura_automated_user_rag.Execution.Service.{
  Sandboxes, is_ready, removed, destroyed, cleaning, cleaned, execute_in, execute_command,
  clean_found, cleanup_environment,
}

module _ (g : Ambient) (boxes : Sandboxes) where
  removed-over :
      (env : ExecutionEnvironment) (r : Result (Unit {0}))
      → is_ready (removed g boxes env r) ≡ false
  removed-over env (raise e) = refl
  removed-over env (ok _) = refl

  destroyed-over :
      (env : ExecutionEnvironment) (r : Result (Unit {0}))
      → is_ready (destroyed g boxes env r) ≡ false
  destroyed-over env (raise e) = refl
  destroyed-over env (ok _) = removed-over env (boxes.remove env)

  removed-id :
      (env : ExecutionEnvironment) (r : Result (Unit {0})) → (removed g boxes env r).id ≡ env.id
  removed-id env (raise e) = refl
  removed-id env (ok _) = refl

  destroyed-id :
      (env : ExecutionEnvironment) (r : Result (Unit {0})) → (destroyed g boxes env r).id ≡ env.id
  destroyed-id env (raise e) = refl
  destroyed-id env (ok _) = removed-id env (boxes.remove env)

  -- A row under an identifier, after two updates of it.
  updated-twice :
      (k : ℕ) (first second row : ExecutionEnvironment) (d : Database)
      → first.id ≡ k
      → second.id ≡ k
      → get_environment k d ≡ some row
      → get_environment k (update_environment second (update_environment first d))
        ≡ some (write_environment second (write_environment first row))
  unfolding get_environment update_environment
  updated-twice k first second row d e1 e2 found =
      let key1 : (first.id == k) ≡ true = (==_iff first.id k).1 e1 in
      let key2 : (second.id == k) ≡ true = (==_iff second.id k).1 e2 in
      let rows =
        modify environment_key first.id (write_environment first) d.execution_environments in
      let once : select environment_key k rows ≡ some (write_environment first row) =
        select-modify environment_key (write_environment first) (λ a. refl) first.id k
          d.execution_environments
        ∙ rw (key1, found) refl in
      select-modify environment_key (write_environment second) (λ a. refl) second.id k rows
      ∙ rw (key2, once) refl

  cleaned-get :
      (k : ℕ) (row : ExecutionEnvironment) (d : Database)
      → get_environment k d ≡ some row
      → get_environment k (clean_found g boxes (some row) d)
        ≡ some
            (write_environment (cleaned g boxes row) (write_environment (cleaning g boxes row) row))
  unfolding get_environment update_environment append_event
  cleaned-get k row d found =
      let id_is : row.id ≡ k = key-select environment_key k d.execution_environments found in
      updated-twice k (cleaning g boxes row) (cleaned g boxes row) row d id_is
        (destroyed-id (cleaning g boxes row) (boxes.destroy (cleaning g boxes row)) ∙ id_is) found

  clean_found-refuses :
      (g' : Ambient) (boxes' : Sandboxes) (command : ExecutionCommand) (k : ℕ)
      (found : Option ExecutionEnvironment) (d : Database)
      → get_environment k d ≡ found
      → execute_in g' boxes' command
          (get_environment k (clean_found g boxes found d))
          (clean_found g boxes found d)
        ≡ (raise (value_error "Environment not ready"), clean_found g boxes found d)
  clean_found-refuses g' boxes' command k none d h = rw h refl
  clean_found-refuses g' boxes' command k (some row) d h =
      rw
        (
          cleaned-get k row d h,
          destroyed-over (cleaning g boxes row) (boxes.destroy (cleaning g boxes row)),
        )
        refl

  -- Whatever cleaning up an environment does, with or without exceptions, a command in it is
  -- refused afterwards, in whatever sandboxes, and nothing is stored.
  pub cleanup_environment-execute_command :
      (g' : Ambient) (boxes' : Sandboxes) (command : ExecutionCommand) (k : ℕ) (d : Database)
      → execute_command g' boxes' command k (cleanup_environment g boxes k d)
        ≡ (raise (value_error "Environment not ready"), cleanup_environment g boxes k d)
  unfolding execute_command cleanup_environment
  cleanup_environment-execute_command g' boxes' command k d =
      clean_found-refuses g' boxes' command k (get_environment k d) d refl
