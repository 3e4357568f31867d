-- ===== src/Attempts/Sessions.antt =====
-- What keeps the attempts bounded inside a unit of work.
use aura_automated_user_rag.Base.{
  some, List, ◌≡◌, refl, sym, ◌∙◌, subst, ==_refl, select, modify, select-modify, Result, ok, raise,
}
use aura_automated_user_rag.Domain.Tasks.{Task}
use aura_automated_user_rag.Store.{Database}
use aura_automated_user_rag.Store.Work.{
  Session, Uow, pure, writes, commit, with_uow, and_then, ◌>>=◌,
}
use aura_automated_user_rag.Store.TaskRows.{task_key, update_task, write_task}
use aura_automated_user_rag.Attempts.Bounded.{Bounded, AllBounded, write_task-AllBounded}

-- The rows on which the session works satisfy `Q` throughout, and those that are committed are bounded.
abbrev pub Keeps : {A : Type 0} → (List Task → Type 0) → Uow A → Type 0
Keeps Q m =
    (s : Session)
    → AllBounded s.committed.tasks
    → Q s.pending.tasks
    → AllBounded (m s).1.committed.tasks × Q (m s).1.pending.tasks

module _ (Q : List Task → Type 0) {A : Type 0} where
  pub pure-Keeps : (a : A) → Keeps Q (pure a)
  pure-Keeps a s c q = (c, q)

  and_then-Keeps :
      {B : Type 0} (r : Result A) (f : A → Uow B)
      → ((a : A) → Keeps Q (f a))
      → Keeps Q (and_then r f)
  and_then-Keeps (ok a) f keep s c q = keep a s c q
  and_then-Keeps (raise e) f keep s c q = (c, q)

  pub bind-Keeps :
      {B : Type 0} (m : Uow A) (f : A → Uow B)
      → Keeps Q m
      → ((a : A) → Keeps Q (f a))
      → Keeps Q (m >>= f)
  bind-Keeps m f first later s c q =
      let (c', q') = first s c q in and_then-Keeps (m s).0 f later (m s).1 c' q'

  pub with_uow-AllBounded :
      (m : Uow A) (d : Database)
      → ((rows : List Task) → AllBounded rows → Q rows)
      → Keeps Q m
      → AllBounded d.tasks
      → AllBounded (with_uow m d).1.tasks
  with_uow-AllBounded m d enter keep all =
      (keep (record { committed = d; pending = d }) all (enter d.tasks all)).0

module _ (Q : List Task → Type 0) where
  -- A write to another table.
  pub quiet-Keeps :
      (f : Database → Database) → ((d : Database) → (f d).tasks ≡ d.tasks) → Keeps Q (writes f)
  quiet-Keeps f same s c q = (c, subst Q (sym (same s.pending)) q)

  pub commit-Keeps : ((rows : List Task) → Q rows → AllBounded rows) → Keeps Q commit
  commit-Keeps bounded s c q = (bounded s.pending.tasks q, q)

-- The table holds a row for the task, with the same maximum of attempts.
abbrev pub Fits : Task → List Task → Type 0
Fits task rows =
    AllBounded rows
    × ((old : Task) × (select task_key task.id rows ≡ some old)
        × (old.max_attempts ≡ task.max_attempts))

pub update_task-Fits :
    (task new : Task)
    → new.id ≡ task.id
    → new.max_attempts ≡ task.max_attempts
    → Bounded new
    → Keeps (Fits task) (writes (update_task new))
unfolding update_task
update_task-Fits task new same most good s c (all, (old, found, max_is)) =
    let found_new : select task_key new.id s.pending.tasks ≡ some old = rw same found in
    (
      c,
      (
        write_task-AllBounded new old s.pending.tasks found_new (max_is ∙ sym most) (λ _. good) all,
        (
          write_task new old,
          subst
              (λ i.
                select task_key i (modify task_key new.id (write_task new) s.pending.tasks)
                ≡ some (write_task new old))
              same
              (select-modify task_key (write_task new) (λ a. refl) new.id new.id s.pending.tasks
                ∙ rw (==_refl new.id, found_new) refl),
          max_is,
        ),
      ),
    )
