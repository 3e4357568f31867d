-- ===== src/Execution/Service/Environments.antt =====
-- `create_environment` gives the same environment when it is called again.
use aura_automated_user_rag.Base.{
  ℕ, Bool, true, String, Option, none, some, List, [], ◌∷◌, ◌++◌, ◌≡◌, inl, inr, refl, sym, ap, ◌∙◌,
  subst, ◌==◌, ==_refl, filter, filter-append, modify, modify-append, Option-cases, Result, ok,
  raise,
}
use aura_automated_user_rag.Domain.Events.{Ambient}
use aura_automated_user_rag.Domain.Executions.{ExecutionEnvironment, EnvironmentStatus}
use aura_automated_user_rag.Store.{Database}
use aura_automated_user_rag.Store.Rows.{append_event}
use aura_automated_user_rag.Store.AgentRows.{
  environment_key, get_environment, update_environment, write_environment, create_environment_row,
  environments_of_execution,
}
use aura_automated_user_rag.Gateway.Commands.{latest}
use aura_automated_user_rag.Execution.Service.{
  Sandboxes, is_ready, failed_environment, with_sandbox, with_worktree, with_base, new_environment,
  provisioned, provision, create_environment,
}

latest-none : (envs : List ExecutionEnvironment) → latest envs ≡ none → envs ≡ []
latest-none [] h = refl
latest-none (x ∷ xs) h = absurd (cc)

module _ (g : Ambient) (boxes : Sandboxes) where
  -- An environment that differs from a row only where `update` writes.
  abbrev pub Writes : ExecutionEnvironment → ExecutionEnvironment → Type 0
  Writes row env = write_environment env row ≡ env

  with_sandbox-Writes :
      (row env : ExecutionEnvironment) (r : Result (Unit {0}))
      → Writes row env
      → Writes row (with_sandbox g boxes env r)
  with_sandbox-Writes row env (raise e) h =
      ap (λ (x : ExecutionEnvironment). failed_environment g boxes x e) h
  with_sandbox-Writes row env (ok _) h =
      ap (λ (x : ExecutionEnvironment). record x { status = EnvironmentStatus.ready }) h

  with_worktree-Writes :
      (row env : ExecutionEnvironment) (r : Result String)
      → Writes row env
      → Writes row (with_worktree g boxes env r)
  with_worktree-Writes row env (raise e) h =
      ap (λ (x : ExecutionEnvironment). failed_environment g boxes x e) h
  with_worktree-Writes row env (ok path) h =
      let placed : ExecutionEnvironment = record env { worktree_path = some path } in
      with_sandbox-Writes row placed (boxes.create_sandbox placed)
        (ap (λ (x : ExecutionEnvironment). record x { worktree_path = some path }) h)

  with_base-Writes :
      (repository_id : String) (row env : ExecutionEnvironment) (r : Result String)
      → Writes row env
      → Writes row (with_base g boxes repository_id env r)
  with_base-Writes repository_id row env (raise e) h =
      ap (λ (x : ExecutionEnvironment). failed_environment g boxes x e) h
  with_base-Writes repository_id row env (ok sha) h =
      let based : ExecutionEnvironment = record env { base_commit_sha = some sha } in
      with_worktree-Writes row based (boxes.create_worktree based repository_id)
        (ap (λ (x : ExecutionEnvironment). record x { base_commit_sha = some sha }) h)

  module _ (mission_id task_id execution_id : ℕ) (repository_id : String) where
    abbrev created : ExecutionEnvironment
    created = new_environment g boxes mission_id task_id execution_id repository_id

    abbrev made : ExecutionEnvironment
    made = provisioned g boxes mission_id task_id execution_id repository_id

    made-Writes : Writes created made
    made-Writes =
        with_base-Writes repository_id created created (boxes.get_base_commit repository_id) refl

    provision-rows :
        (d : Database)
        → get_environment (g.uuid 0) d ≡ none
        → (provision g boxes mission_id task_id execution_id repository_id
            d).1.execution_environments
          ≡ d.execution_environments ++ made ∷ []
    unfolding get_environment create_environment_row update_environment append_event
    provision-rows d free =
        let id_is : made.id ≡ g.uuid 0 = sym (ap (λ e. e.id) made-Writes) in
        subst
          (λ k.
            modify environment_key k (write_environment made)
              (d.execution_environments ++ created ∷ [])
            ≡ d.execution_environments ++ write_environment made created ∷ [])
          (sym id_is)
          (modify-append environment_key (g.uuid 0) (write_environment made)
            d.execution_environments created free (==_refl (g.uuid 0)))
        ∙ ap (λ (e : ExecutionEnvironment). d.execution_environments ++ e ∷ []) made-Writes

    abbrev choice : List ExecutionEnvironment → Option ExecutionEnvironment
    choice envs = latest (filter is_ready (filter (λ env. env.execution_id == execution_id) envs))

    made-choice :
        (d : Database)
        → choice d.execution_environments ≡ none
        → is_ready made ≡ true
        → choice (d.execution_environments ++ made ∷ []) ≡ some made
    made-choice d nothing ready =
        let p : ExecutionEnvironment → Bool = λ env. env.execution_id == execution_id in
        let old = d.execution_environments in
        let owner : p made ≡ true =
          ap (λ (e : ExecutionEnvironment). e.execution_id == execution_id) (sym made-Writes)
          ∙ ==_refl execution_id in
        let empty : filter is_ready (filter p old) ≡ [] =
          latest-none (filter is_ready (filter p old)) nothing in
        let last : filter is_ready (filter p (made ∷ [])) ≡ made ∷ [] = rw (owner, ready) refl in
        let split : filter is_ready (filter p (old ++ made ∷ []))
            ≡ filter is_ready (filter p old) ++ filter is_ready (filter p (made ∷ [])) =
          ap (filter is_ready) (filter-append p old (made ∷ []))
          ∙ filter-append is_ready (filter p old) (filter p (made ∷ [])) in
        let joined : filter is_ready (filter p old) ++ filter is_ready (filter p (made ∷ []))
            ≡ made ∷ [] =
          rw (empty, last) refl in
        ap latest (split ∙ joined)

    -- A call that ends with an environment that is READY, made under a new identifier if none was
    -- READY before, and a second call for the same execution, at any time and in whatever
    -- sandboxes: the second returns that environment and stores nothing.
    pub create_environment-again :
        (g' : Ambient) (boxes' : Sandboxes) (d : Database)
        → get_environment (g.uuid 0) d ≡ none
        → is_ready (create_environment g boxes mission_id task_id execution_id repository_id d).0
          ≡ true
        → create_environment g' boxes' mission_id task_id execution_id repository_id
            (create_environment g boxes mission_id task_id execution_id repository_id d).1
          ≡ create_environment g boxes mission_id task_id execution_id repository_id d
    unfolding create_environment environments_of_execution
    create_environment-again g' boxes' d free ready =
        elim (Option-cases (choice d.execution_environments)) [
          | inr (env, chosen) ↦ rw (chosen, chosen) refl
          | inl nothing ↦
              let here : is_ready made ≡ true = rw nothing at ready in
              let again : choice
                    (provision g boxes mission_id task_id execution_id repository_id
                      d).1.execution_environments
                  ≡ some made =
                ap choice (provision-rows d free) ∙ made-choice d nothing here in
              rw (nothing, again) refl
        ]
