-- ===== src/Database/Tests.antt =====
-- The properties of migrations on a concrete database: a list of the statements that it has run
-- (backend/internal/database/migrations.go).
use sync_space.Base.Dict.{insert, lookup}
use sync_space.Base.{String, false, none, some, List, [], ◌∷◌, ◌≡◌, refl, All, Option, ◌++◌}
use sync_space.Database.{Migration, MigrationEnv, Connection, migrate}
use sync_space.Database.Repeated.{IsRecorded, migrate-again}

abbrev exec : List String → String → Option (List String)
exec log statement = some (log ++ statement ∷ [])

abbrev columns_of : List String → String → Option (List String)
columns_of log table = some ("device_id" ∷ [])

abbrev first : Migration
first = record {
  version = 1;
  name = "trusted devices";
  statements = "CREATE TABLE trusted_devices" ∷ [];
  columns = [];
}

abbrev second : Migration
second = record {
  version = 3;
  name = "cryptographic trust metadata";
  statements = [];
  columns = record { table = "trusted_devices"; name = "blocked"; definition = "INTEGER" } ∷ [];
}

abbrev fine : MigrationEnv
fine = record {
  prepare_fails = false;
  query_fails = λ version. false;
  begin_fails = λ version. false;
  insert_fails = λ version. false;
  commit_fails = λ version. false;
}

-- The first migration was applied before.
abbrev old : Connection (List String) exec columns_of
old = record {
  tables = "CREATE TABLE trusted_devices" ∷ [];
  schema_migrations = (1, "trusted devices") ∷ [];
}

abbrev new : Connection (List String) exec columns_of
new = record {
  tables =
      "CREATE TABLE trusted_devices" ∷ "ALTER TABLE trusted_devices ADD COLUMN blocked INTEGER"
      ∷ [];
  schema_migrations = (1, "trusted devices") ∷ (3, "cryptographic trust metadata") ∷ [];
}

migrate-again_example :
    All (IsRecorded (List String) exec columns_of new) (first ∷ second ∷ [])
    × (migrate (List String) exec columns_of (first ∷ second ∷ []) fine (some new)
        ≡ (none, some new))
unfolding migrate lookup insert
migrate-again_example =
    migrate-again (List String) exec columns_of (first ∷ second ∷ []) fine fine old new refl refl
      (λ version. refl)
