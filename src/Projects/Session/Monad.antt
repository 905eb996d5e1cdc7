-- ===== src/Projects/Session/Monad.antt =====
-- A transaction of the registry (`async with self._sessions.begin()` of
-- apps/api/app/projects/repository.py): state and exceptions, where an exception rolls the whole
-- transaction back, so that its result carries no database.
use poc_la_graph.Base.{
  suc, String, Bool, true, false, Option, none, some, ◌⊎◌, inl, inr, ◌≡◌, refl, arith,
}
use poc_la_graph.Projects.Rows.{RowId, Database}

-- The exceptions: `ProjectNotFound`, `UploadNotFound`, `ProjectConflict`, `AuthorizationError`,
-- and the `IntegrityError` of a unique constraint.
pub data Error : Type 0 where
  project_not_found : RowId → Error
  upload_not_found : RowId → Error
  project_conflict : String → Error
  authorization : Error
  integrity : Error

pub data Result (A : Type 0) : Type 0 where
  ok : A → Result A
  err : Error → Result A

abbrev pub Transaction : Type 0 → Type 0
Transaction A = Database → Result (A × Database)

infixl 5 ◌>>=◌ ◌>>◌
abbrev pub ◌>>=◌ : {A B : Type 0} → Transaction A → (A → Transaction B) → Transaction B
◌>>=◌ m f db = elim (m db) [ ok (a, db') ↦ f a db' | err e ↦ err e ]

abbrev pub ◌>>◌ : {B : Type 0} → Transaction (Unit {0}) → Transaction B → Transaction B
m >> k = m >>= λ _. k

module _ {A : Type 0} where
  abbrev pub pure : A → Transaction A
  pure a db = ok (a, db)

  abbrev pub raise : Error → Transaction A
  raise e db = err e

  abbrev pub gets : (Database → A) → Transaction A
  gets f db = ok (f db, db)

  -- `if row is None: raise …`
  abbrev pub or_raise : Option A → Error → Transaction A
  or_raise none e = raise e
  or_raise (some a) e = pure a

abbrev pub modify : (Database → Database) → Transaction (Unit {0})
modify f db = ok (tt, f db)

abbrev pub raise_if : Bool → Error → Transaction (Unit {0})
raise_if true e = raise e
raise_if false e = pure tt

-- The database after a call: what a failed transaction wrote is rolled back.
abbrev pub after : {A : Type 0} → Transaction A → Database → Database
after m db = elim (m db) [ ok (_, db') ↦ db' | err _ ↦ db ]

abbrev pub succeeds : {A : Type 0} → Transaction A → Database → Bool
succeeds m db = elim (m db) [ ok _ ↦ true | err _ ↦ false ]

-- `str(uuid4())`: an identifier that has not been used.
abbrev pub uuid4 : Transaction RowId
uuid4 db = ok (db.next_id, record db { next_id = suc db.next_id })

-- To split on how a transaction ends, with the equation.
pub Result-cases :
    {A : Type 0} (r : Result (A × Database))
    → ((a : A) × (db : Database) × (r ≡ ok (a, db))) ⊎ ((e : Error) × (r ≡ err e))
Result-cases (ok (a, db)) = inl (a, db, refl)
Result-cases (err e) = inr (e, refl)

-- A method made of several transactions: each is committed or rolled back by itself, and an
-- exception of a later one leaves the earlier ones committed.
abbrev pub Call : Type 0 → Type 0
Call A = Database → Result A × Database

abbrev pub commit : {A : Type 0} → Transaction A → Call A
commit m db = elim (m db) [ ok (a, db') ↦ (ok a, db') | err e ↦ (err e, db) ]

abbrev pub and_then : {A B : Type 0} → Call A → (A → Call B) → Call B
and_then m k db = let (r, db') = m db in elim r [ ok a ↦ k a db' | err e ↦ (err e, db') ]

-- What follows a transaction that was committed.
pub and_then-commit :
    {A B : Type 0} (m : Transaction A) (k : A → Call B) (db : Database) (a : A) (db' : Database)
    → m db ≡ ok (a, db')
    → and_then (commit m) k db ≡ k a db'
and_then-commit m k db a db' e = ground arith

-- A transaction that succeeds has no other result than its database.
pub succeeds-after :
    (m : Transaction (Unit {0})) (db : Database) → succeeds m db ≡ true → m db ≡ ok (tt, after m db)
succeeds-after m db e = elim (Result-cases (m db)) [
  | inl (_, db', f) ↦ ground arith
  | inr (x, f) ↦ ground arith
]

pub commit-ok :
    {A : Type 0} (m : Transaction A) (db : Database) (a : A) (db' : Database)
    → m db ≡ ok (a, db')
    → commit m db ≡ (ok a, db')
commit-ok m db a db' e = ground arith

-- What follows a transaction that succeeded, and one that raised.
pub then_ok :
    {B : Type 0} (m : Transaction (Unit {0})) (k : Transaction B) (db db' : Database)
    → m db ≡ ok (tt, db')
    → (m >> k) db ≡ k db'
then_ok m k db db' e = ground arith

pub then_refused :
    {B : Type 0} (m : Transaction (Unit {0})) (k : Transaction B) (db : Database)
    → succeeds m db ≡ false
    → succeeds (m >> k) db ≡ false
then_refused m k db e = elim (Result-cases (m db)) [
  | inl (_, db', f) ↦ ground arith
  | inr (x, f) ↦ ground arith
]

-- The database of a result, or the given one if it is an exception.
abbrev pub result_database : Result (Unit {0} × Database) → Database → Database
result_database r db = elim r [ ok (_, db') ↦ db' | err _ ↦ db ]

pub and_then-refused :
    {A B : Type 0} (m : Transaction A) (k : A → Call B) (db : Database) (x : Error)
    → m db ≡ err x
    → and_then (commit m) k db ≡ (err x, db)
and_then-refused m k db x e = ground arith

-- What follows a call that ended without an exception.
pub and_then-fine :
    {B : Type 0} (m : Call (Unit {0})) (k : Unit {0} → Call B) (db : Database)
    → (m db).0 ≡ ok tt
    → and_then m k db ≡ k tt (m db).1
and_then-fine m k db e = ground arith
