-- ===== src/Orphans/Safety.antt =====
-- Only the directories of environments that are gone or over are deleted.
use aura_automated_user_rag.Base.{
  ℕ, ◌+◌, Bool, true, false, String, Option, none, some, List, [], ◌∷◌, ◌≡◌, inl, inr, refl, sym,
  ap, ◌∙◌, subst, ◌==◌, ==_iff, In, here, there, In-cons, In-append, not-In-nil, select, modify,
  select-modify, key-select, Bool-cases,
}
use aura_automated_user_rag.Domain.Events.{Ambient}
use aura_automated_user_rag.Domain.Executions.{
  ExecutionEnvironment, EnvironmentStatus, environment_status_eq,
}
use aura_automated_user_rag.Store.{Database}
use aura_automated_user_rag.Store.Rows.{append_event}
use aura_automated_user_rag.Store.AgentRows.{
  environment_key, get_environment, update_environment, write_environment,
}
use aura_automated_user_rag.Orphans.{
  WorktreeDirectory, Markers, marked, is_orphan, clean_orphan, clean_if, visit_marked, visit_all,
  recover_orphans,
}

-- Two databases that agree on the environments that are in use, and on which are not.
pub record Respects (d e : Database) : Type 0 where
  pub same_orphans : (k : ℕ) → is_orphan (get_environment k e) ≡ is_orphan (get_environment k d)
  pub same_active :
      (k : ℕ) → is_orphan (get_environment k d) ≡ false → get_environment k e ≡ get_environment k d

Respects-refl : (d : Database) → Respects d d
Respects-refl d = record { same_orphans = λ k. refl; same_active = λ k h. refl }

Respects-trans : {d e f : Database} → Respects d e → Respects e f → Respects d f
Respects-trans a b = record {
  same_orphans = λ k. b.same_orphans k ∙ a.same_orphans k;
  same_active = λ k h. b.same_active k (a.same_orphans k ∙ h) ∙ a.same_active k h;
}

-- The rows after an environment that is an orphan was marked as destroyed.
module _ (env : ExecutionEnvironment) (rows : List ExecutionEnvironment)
    (found : select environment_key env.id rows ≡ some env)
    (orphan : is_orphan (some env) ≡ true) where
  abbrev marked_rows : List ExecutionEnvironment
  marked_rows =
      modify environment_key env.id
        (write_environment (record env { status = EnvironmentStatus.destroyed })) rows

  marked_rows-same :
      (k : ℕ)
      → (is_orphan (select environment_key k marked_rows)
          ≡ is_orphan (select environment_key k rows))
        × (is_orphan (select environment_key k rows) ≡ false
            → select environment_key k marked_rows ≡ select environment_key k rows)
  marked_rows-same k =
      let law =
        select-modify environment_key
          (write_environment (record env { status = EnvironmentStatus.destroyed })) (λ a. refl)
          env.id k rows in
      elim (Bool-cases (env.id == k)) [
        | inr other ↦
            let same : select environment_key k marked_rows ≡ select environment_key k rows =
              rw other at law in
            (ap is_orphan same, λ h. same)
        | inl own ↦
            let here_is : select environment_key k rows ≡ some env =
              subst (λ i. select environment_key i rows ≡ some env) ((==_iff env.id k).0 own)
                found in
            let was : is_orphan (select environment_key k rows) ≡ true =
              ap is_orphan here_is ∙ orphan in
            let now_is : is_orphan (select environment_key k marked_rows) ≡ true =
              ap is_orphan (rw (own, here_is) at law) in
            (now_is ∙ sym was, λ h. let bad : true ≡ false = sym was ∙ h in absurd (cc))
      ]

module _ (g : Ambient) (exec_path env_id_str : String) where
  -- Cleaning up an orphan touches no environment that is in use.
  clean_orphan-Respects :
      (env_id : ℕ) (found : Option ExecutionEnvironment) (deleted : List String) (d : Database)
      → get_environment env_id d ≡ found
      → is_orphan found ≡ true
      → Respects d (clean_orphan g exec_path env_id_str found (deleted, d)).1
  unfolding clean_orphan append_event get_environment update_environment
  clean_orphan-Respects env_id none deleted d h orphan = record {
    same_orphans = λ k. refl;
    same_active = λ k a. refl;
  }
  clean_orphan-Respects env_id (some env) deleted d h orphan =
      let id_is : env.id ≡ env_id = key-select environment_key env_id d.execution_environments h in
      let own : select environment_key env.id d.execution_environments ≡ some env =
        subst (λ i. select environment_key i d.execution_environments ≡ some env) (sym id_is) h in
      record {
        same_orphans = λ k. (marked_rows-same env d.execution_environments own orphan k).0;
        same_active = λ k. (marked_rows-same env d.execution_environments own orphan k).1;
      }

module _ (markers : Markers) where
  -- A path that may be deleted: it is one of the directories, marked with an environment that is
  -- not there, DESTROYED or FAILED.
  abbrev pub Deletable : List WorktreeDirectory → Database → String → Type 0
  Deletable dirs d path =
      (dir : WorktreeDirectory) × In dir dirs
      × (dir.exec_path ≡ path)
      × ((env_id_str : String) × (env_id : ℕ) × (marked markers dir ≡ some (env_id_str, env_id))
          × (is_orphan (get_environment env_id d) ≡ true))

  -- What is known of the deleted paths and of the database on the way.
  pub record Cautious (dirs : List WorktreeDirectory) (d : Database)
      (state : List String × Database) : Type 0 where
    pub respects : Respects d state.1
    pub deletable : (path : String) → In path state.0 → Deletable dirs d path

  clean_if-Cautious :
      (g : Ambient) (dirs : List WorktreeDirectory) (dir : WorktreeDirectory) (d : Database)
      (env_id_str : String) (env_id : ℕ) (orphan : Bool) (deleted : List String) (e : Database)
      → In dir dirs
      → marked markers dir ≡ some (env_id_str, env_id)
      → is_orphan (get_environment env_id e) ≡ orphan
      → Cautious dirs d (deleted, e)
      → Cautious dirs d
          (clean_if g dir.exec_path env_id_str (get_environment env_id e) orphan (deleted, e))
  unfolding clean_orphan
  clean_if-Cautious g dirs dir d env_id_str env_id false deleted e m is_marked h c = c
  clean_if-Cautious g dirs dir d env_id_str env_id true deleted e m is_marked h c = record {
    respects = Respects-trans c.respects (
        clean_orphan-Respects g dir.exec_path env_id_str env_id (get_environment env_id e) deleted e
          refl h);
    deletable = λ path p. elim (In-append deleted (dir.exec_path ∷ []) p) [
      | inl old ↦ c.deletable path old
      | inr last ↦ elim (In-cons last) [
        | inl this ↦ (
          dir,
          m,
          sym this,
          (env_id_str, env_id, is_marked, sym (c.respects.same_orphans env_id) ∙ h),
        )
        | inr none_left ↦ absurd (not-In-nil none_left)
      ]
    ];
  }

  visit_marked-Cautious :
      (g : Ambient) (dirs : List WorktreeDirectory) (dir : WorktreeDirectory) (d : Database)
      (found : Option (String × ℕ)) (state : List String × Database)
      → In dir dirs
      → marked markers dir ≡ found
      → Cautious dirs d state
      → Cautious dirs d (visit_marked markers g dir.exec_path found state)
  visit_marked-Cautious g dirs dir d none state m h c = c
  visit_marked-Cautious g dirs dir d (some (env_id_str, env_id)) (deleted, e) m h c =
      clean_if-Cautious g dirs dir d env_id_str env_id (is_orphan (get_environment env_id e))
        deleted e m h refl c

  visit_all-Cautious :
      (gs : ℕ → Ambient) (k : ℕ) (dirs rest : List WorktreeDirectory) (d : Database)
      (state : List String × Database)
      → ((dir : WorktreeDirectory) → In dir rest → In dir dirs)
      → Cautious dirs d state
      → Cautious dirs d (visit_all markers gs k rest state)
  unfolding visit_all
  visit_all-Cautious gs k dirs [] d state inside c = c
  visit_all-Cautious gs k dirs (dir ∷ rest) d state inside c =
      visit_all-Cautious gs (k + 1) dirs rest d
        (visit_marked markers (gs k) dir.exec_path (marked markers dir) state)
        (λ x m. inside x (there m))
        (visit_marked-Cautious (gs k) dirs dir d (marked markers dir) state (inside dir (here refl))
          refl c)

  -- Every directory that `recover_orphans` deletes is marked with an environment that was not in the
  -- database before, or was DESTROYED or FAILED; and the environments that were in use stay as they
  -- were.
  pub recover_orphans-Cautious :
      (gs : ℕ → Ambient) (dirs : List WorktreeDirectory) (d : Database)
      → Cautious dirs d (recover_orphans markers gs dirs d)
  unfolding recover_orphans
  recover_orphans-Cautious gs dirs d =
      visit_all-Cautious gs 0 dirs dirs d ([], d) (λ x m. m)
        (record { respects = Respects-refl d; deletable = λ path m. absurd (not-In-nil m) })
