-- ===== src/Database.antt =====
-- src/database/db.c, and what the models need of SQLite, of the C library and of the operating
-- system, which are the fields of `System`. `W` is the state of these: the rows of the database
-- and the files. A function of the source that reaches them is a function of `W`.
pub mod Handlers
pub mod Selects
pub mod Pools
pub mod Results
use Prim.Native.String.{String}
use file_share_server.Common.{
  ℕ, zero, suc, ◌+◌, ◌==◌, if◌then◌else◌, Bool, true, false, Option, none, some, List, [], ◌∷◌,
  length, get_or, ℤ, pos, negsuc, int_eq, is_some, Outcome, done, fault, ◌>>=◌,
}
use file_share_server.Base64.{codes}
use file_share_server.Dictionary
use file_share_server.Dictionary.{Dictionary, compare_string_keys, dictionary_constructor}
use Handlers.{Handler, return}

abbrev pub Text : Type 0
Text = List ℕ

-- The columns of a row; `none` is SQL's NULL.
abbrev pub Row : Type 0
Row = List (Option Text)

-- What stepping a statement gives: the rows, then the code that is not sqlite_row.
pub record Run (W : Type 0) : Type 0 where
  pub rows : List Row
  pub code : ℕ
  pub after : W

pub record Pool : Type 0 where
  pub path : Text
  pub name : Text

abbrev pub Pools : Type 0
Pools = Dictionary Text (Option Pool)

-- What `stat` says of a path.
pub data FileKind : Type 0 where
  directory : FileKind
  other : FileKind

pub record System (W : Type 0) : Type 0 where
  -- SQLite: `none` where the statement is not prepared.
  pub prepare : W → String → List (Option Text) → Option (Run W)
  pub last_insert_rowid : W → ℤ
  pub column_int : Option Text → ℤ
  pub column_int64 : Option Text → ℤ
  -- The C library; an uninitialised integer holds `garbage`. The seconds since a date that
  -- `strptime` reads; the local time as `strftime` writes it; the token type and the token value
  -- that `strtok` finds.
  pub print_long : ℤ → Text
  pub atoi : Text → ℤ
  pub atol : Text → ℤ
  pub strcmp : Text → Text → ℤ
  pub strtok : Text → Option (Text × Option Text)
  pub seconds_since : Text → W → ℤ
  pub local_time : W → Text
  pub garbage : ℤ
  -- Whether the second text stands in the first; the rest of a text from the last such character on.
  pub strstr : Text → Text → Bool
  pub strrchr : Text → ℕ → Option Text
  -- What `malloc` leaves in the bytes it gives.
  pub heap : List ℕ
  -- The file system. `opendir` and `readdir` are one list of names.
  pub mkdir : Text → W → ℤ × W
  pub opendir : Text → W → Option (List Text)
  pub stat : Text → W → Option FileKind
  pub unlink : Text → W → ℤ × W
  pub rmdir : Text → W → ℤ × W
  pub remove : Text → W → ℤ × W
  pub access : Text → W → ℤ
  -- The bytes of a file that is opened to be read.
  pub fopen : Text → W → Option (List ℕ)
  -- The static `manager` of db.c.
  pub pools : Pools

-- `sqlite3_column_text`.
abbrev pub column_text : Row → ℕ → Option Text
column_text row i = get_or row i none

abbrev pub default_name : Text
default_name = codes "default"

-- A name that is NULL is "default"; `get_pool` dereferences what the search finds.
abbrev named : Option Text → Text
named none = default_name
named (some name) = name

abbrev followed : {A : Type 0} → Option A → Outcome A
followed none = fault
followed (some a) = done a

unfoldable pub get_pool : (Text → Text → ℤ) → Pools → Option Text → Outcome (Option Pool)
get_pool strcmp manager name = do
  found ← Dictionary.search (compare_string_keys strcmp) none manager (named name)
  followed found

-- The value returned and the manager afterwards.
pub add_pool : (Text → Text → ℤ) → Pools → Text → Pool → Outcome (ℤ × Pools)
add_pool strcmp manager name pool = do
  found ← Dictionary.search (compare_string_keys strcmp) none manager name
  elim found [
    | some _ ↦ done (negsuc 0, manager)
    | none ↦ do
      pools ← Dictionary.insert (compare_string_keys strcmp) manager name (length name) (some pool)
      done (pos 0, pools)
  ]

-- `connect_db` with `sqlite3_open`, and the manager afterwards.
pub connect_db :
    (Text → Text → ℤ) → (Text → Bool) → Pools → Text → Option Text → Outcome (ℤ × Pools)
unfolding add_pool
connect_db strcmp sqlite3_open manager uri name = do
  let pool : Pool = record { path = uri; name = named name }
  (res, pools) ← add_pool strcmp manager (named name) pool
  if int_eq res (pos 0)
      then done (if sqlite3_open uri then pos 0 else negsuc 0, pools)
      else done (negsuc 0, pools)

module _ {W : Type 0} (system : System W) where
  abbrev pub sqlite_row : ℕ
  sqlite_row = 100

  abbrev pub sqlite_done : ℕ
  sqlite_done = 101

  -- The loop of `exec` over `sqlite3_step`, and what it returns; without a callback a row ends it.
  unfoldable pub step_loop :
      {A : Type 0} → Option (Row → A → Handler W A) → List Row → ℕ → A → Handler W (ℤ × A)
  step_loop callback [] code arg w = return (if code == sqlite_done then pos 0 else pos code, arg) w
  step_loop none (row ∷ rows) code arg w = return (pos sqlite_row, arg) w
  step_loop (some callback) (row ∷ rows) code arg w =
      Handlers.next (callback row arg w) (step_loop (some callback) rows code)

  -- A statement that is not prepared is -1.
  abbrev pub step_run :
      {A : Type 0} → Option (Row → A → Handler W A) → A → Option (Run W) → Handler W (ℤ × A)
  step_run callback arg none w = return (negsuc 0, arg) w
  step_run callback arg (some run) w = step_loop callback run.rows run.code arg run.after

  -- What `exec` returns, and what its callback leaves in `arg`.
  unfoldable pub exec :
      {A : Type 0}
      → Option (Row → A → Handler W A)
      → A
      → String
      → List (Option Text)
      → Handler W (ℤ × A)
  exec callback arg sql values w = step_run callback arg (system.prepare w sql values) w

  -- `exec` without a callback.
  unfoldable pub execute : String → List (Option Text) → Handler W ℤ
  unfolding exec
  execute sql values w =
      Handlers.next (exec {A = Unit {0}} none tt sql values w) (λ result. return result.0)

  abbrev pub on_pool : {A : Type 0} → Outcome (Option Pool) → A → Handler W A → Handler W A
  on_pool (done (some pool)) failed body w = body w
  on_pool (done none) failed body w = return failed w
  on_pool fault failed body w = Outcome.fault
  on_pool Outcome.exited failed body w = Outcome.exited

  -- The start of every operation of a model: `failed` where the pool is NULL.
  unfoldable pub with_pool : {A : Type 0} → A → Handler W A → Handler W A
  with_pool failed body = on_pool (get_pool system.strcmp system.pools none) failed body
