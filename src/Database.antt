-- ===== src/Database.antt =====
-- backend/internal/database/migrations.go: the ordered migrations of the schema. What SQLite does to the
-- tables is the parameter `exec`; the statements of the program's four migrations are texts, and stand
-- for any list of migrations here.
pub mod Repeated
mod Tests
use sync_space.Base.{
  ℕ, String, ◌<>◌, Bool, true, false, not, ◌||◌, Option, none, some, List, [], ◌∷◌, if◌then◌else◌,
  ◌==◌, string_eq, nat_eq,
}
use sync_space.Base.Dict
use sync_space.Base.Dict.{Dict}

-- A column that a migration adds unless the table has it.
pub record Column : Type 0 where
  pub table : String
  pub name : String
  pub definition : String

-- Statements, then columns (the `apply` of the source).
pub record Migration : Type 0 where
  pub version : ℕ
  pub name : String
  pub statements : List String
  pub columns : List Column

-- Which calls of the database fail, by the migration's version.
pub record MigrationEnv : Type 0 where
  pub prepare_fails : Bool
  pub query_fails : ℕ → Bool
  pub begin_fails : ℕ → Bool
  pub insert_fails : ℕ → Bool
  pub commit_fails : ℕ → Bool

pub data MigrationError : Type 0 where
  preparing : MigrationError
  asking beginning applying committing : ℕ → MigrationError

abbrev contains_name : String → List String → Bool
contains_name name [] = false
contains_name name (n ∷ ns) = if n == name then true else contains_name name ns

-- `exec` runs a statement, `columns_of` is the answer to `PRAGMA table_info`.
module _ (Tables : Type 0) (exec : Tables → String → Option Tables)
    (columns_of : Tables → String → Option (List String)) where
  pub record Connection : Type 0 where
    pub tables : Tables
    pub schema_migrations : Dict ℕ String

  unfoldable pub ensure_column : Tables → Column → Option Tables
  ensure_column d column = elim (columns_of d column.table) [
    | none ↦ none
    | some names ↦
        if contains_name column.name names
        then some d
        else exec d (
            "ALTER TABLE "
            <> (column.table <> (" ADD COLUMN " <> (column.name <> (" " <> column.definition)))))
  ]

  unfoldable pub run_statements : Tables → List String → Option Tables
  run_statements d [] = some d
  run_statements d (s ∷ ss) = elim (exec d s) [ none ↦ none | some next ↦ run_statements next ss ]

  unfoldable pub ensure_columns : Tables → List Column → Option Tables
  unfolding ensure_column
  ensure_columns d [] = some d
  ensure_columns d (c ∷ cs) = elim (ensure_column d c) [
    | none ↦ none
    | some next ↦ ensure_columns next cs
  ]

  -- One transaction: all of a migration with its record, or none of it.
  unfoldable pub apply_migration :
      MigrationEnv → Connection → Migration → Option MigrationError × Connection
  unfolding run_statements ensure_columns
  apply_migration env db m =
      if env.begin_fails m.version
      then (some (beginning m.version), db)
      else elim (run_statements db.tables m.statements) [
        | none ↦ (some (applying m.version), db)
        | some made ↦ elim (ensure_columns made m.columns) [
          | none ↦ (some (applying m.version), db)
          | some tables ↦
              if env.insert_fails m.version
              then (some (applying m.version), db)
              else if env.commit_fails m.version
              then (some (committing m.version), db)
              else (
                none,
                record {
                  tables = tables;
                  schema_migrations = Dict.insert m.version m.name db.schema_migrations;
                },
              )
        ]
      ]

  abbrev is_applied : Option String → Bool
  is_applied none = false
  is_applied (some name) = true

  -- The loop over the migrations.
  unfoldable pub apply_all :
      MigrationEnv → Connection → List Migration → Option MigrationError × Connection
  unfolding apply_migration
  apply_all env db [] = (none, db)
  apply_all env db (m ∷ ms) =
      if env.query_fails m.version
      then (some (asking m.version), db)
      else (elim (Dict.lookup m.version db.schema_migrations) [
        | some name ↦ apply_all env db ms
        | none ↦
            let (failure, next) = apply_migration env db m in
            elim failure [ some e ↦ (some e, next) | none ↦ apply_all env next ms ]
      ])

  unfoldable pub migrate :
      List Migration → MigrationEnv → Option Connection → Option MigrationError × Option Connection
  unfolding apply_all
  migrate migrations env none = (some preparing, none)
  migrate migrations env (some db) =
      if env.prepare_fails
      then (some preparing, some db)
      else (let (failure, next) = apply_all env db migrations in (failure, some next))
