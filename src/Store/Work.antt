-- ===== src/Store/Work.antt =====
-- `SQLAlchemyUnitOfWork`: a session works on the database that it found and `commit` makes its
-- work durable. What was not committed when the `async with` block is left, in whatever way, is lost.
use aura_automated_user_rag.Base.{Exception}
use aura_automated_user_rag.Base.{Result, ok, raise}
use aura_automated_user_rag.Store.{Database}

pub record Session : Type 0 where
  pub committed : Database
  pub pending : Database

-- Statements inside a unit of work.
abbrev pub Uow : Type 0 → Type 0
Uow A = Session → Result A × Session

module _ {A : Type 0} where
  abbrev pub pure : A → Uow A
  pure a s = (ok a, s)

  abbrev pub throw : Exception → Uow A
  throw e s = (raise e, s)

  -- A query.
  abbrev pub reads : (Database → A) → Uow A
  reads f s = (ok (f s.pending), s)

  -- A query that locks and changes the rows that it finds.
  abbrev pub updates : (Database → A × Database) → Uow A
  updates f s = let (a, d) = f s.pending in (ok a, record s { pending = d })

  -- The value of a pure function that may raise.
  abbrev pub lift : Result A → Uow A
  lift r s = (r, s)

  -- `async with uow: body`
  abbrev pub with_uow : Uow A → Database → Result A × Database
  with_uow body d = let (r, s) = body (record { committed = d; pending = d }) in (r, s.committed)

-- An insert or an update, flushed to the session.
abbrev pub writes : (Database → Database) → Uow (Unit {0})
writes f s = (ok tt, record s { pending = f s.pending })

abbrev pub commit : Uow (Unit {0})
commit s = (ok tt, record s { committed = s.pending })

-- A unit of work of its own inside another one, over rows that the outer one has not changed: its
-- commit is durable at once, and the outer one reads it.
abbrev pub at_once : (Database → Database) → Uow (Unit {0})
at_once f s = (ok tt, record { committed = f s.committed; pending = f s.pending })

module _ {A B : Type 0} where
  abbrev pub and_then : Result A → (A → Uow B) → Uow B
  and_then (ok a) f = f a
  and_then (raise e) f = throw e

  infixl 5 ◌>>=◌ ◌>>◌
  abbrev pub ◌>>=◌ : Uow A → (A → Uow B) → Uow B
  ◌>>=◌ m f s = let (r, t) = m s in and_then r f t

  abbrev pub ◌>>◌ : Uow A → Uow B → Uow B
  m >> n = m >>= λ _. n

-- Several units of work, one after the other.
abbrev pub Script : Type 0 → Type 0
Script A = Database → Result A × Database

module _ {A B : Type 0} where
  abbrev pub then_run : Result A × Database → (A → Script B) → Result B × Database
  then_run (ok a, d) f = f a d
  then_run (raise e, d) f = (raise e, d)
