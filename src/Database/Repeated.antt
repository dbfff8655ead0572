-- ===== src/Database/Repeated.antt =====
-- A migration that has succeeded leaves nothing to be done.
use sync_space.Base.{
  ℕ, String, true, false, Option, none, some, List, [], ◌∷◌, ◌≡◌, ◌≢◌, refl, sym, ◌∙◌, arith,
  nat_eq, All, Bool-cases, Option-cases, inl, inr, ◌⊎◌,
}
use mathlib.Core.Path.{subst}
use sync_space.Base.Dict
use sync_space.Base.Dict.{Dict}
use sync_space.Database.{
  Migration, MigrationEnv, MigrationError, asking, Connection, apply_migration, apply_all, migrate,
}

module _ (Tables : Type 0) (exec : Tables → String → Option Tables)
    (columns_of : Tables → String → Option (List String)) where
  -- A migration that is recorded.
  abbrev pub IsRecorded : Connection Tables exec columns_of → Migration → Type 0
  IsRecorded db m = Dict.lookup m.version db.schema_migrations ≢ none

  -- No success without the entry.
  apply_migration-success :
      (env : MigrationEnv) (db : Connection Tables exec columns_of) (m : Migration)
      → (apply_migration Tables exec columns_of env db m).0 ≡ none
      → (apply_migration Tables exec columns_of env db m).1.schema_migrations
        ≡ Dict.insert m.version m.name db.schema_migrations
  unfolding apply_migration
  apply_migration-success env db m h = ground (arith, h)

  -- What one transaction does to the record: nothing, or its own entry.
  apply_migration-cases :
      (env : MigrationEnv) (db : Connection Tables exec columns_of) (m : Migration)
      → ((apply_migration Tables exec columns_of env db m).1 ≡ db)
        ⊎ ((apply_migration Tables exec columns_of env db m).1.schema_migrations
            ≡ Dict.insert m.version m.name db.schema_migrations)
  unfolding apply_migration
  apply_migration-cases env db m =
      elim (Option-cases (apply_migration Tables exec columns_of env db m).0) [
        | inl good ↦ inr (apply_migration-success env db m good)
        | inr (e, failed) ↦ inl (ground (arith, failed))
      ]

  insert-IsRecorded :
      (k : ℕ) (name : String) (d : Dict ℕ String) (n : ℕ)
      → Dict.lookup n d ≢ none
      → Dict.lookup n (Dict.insert k name d) ≢ none
  insert-IsRecorded k name d n h e = h (ground (arith, e, Dict.lookup-insert k n name d))

  apply_migration-IsRecorded :
      (env : MigrationEnv) (db : Connection Tables exec columns_of) (m n : Migration)
      → IsRecorded db n
      → IsRecorded (apply_migration Tables exec columns_of env db m).1 n
  apply_migration-IsRecorded env db m n h = elim (apply_migration-cases env db m) [
    | inl same ↦ subst (λ d. IsRecorded d n) (sym same) h
    | inr added ↦
        subst (λ d. Dict.lookup n.version d ≢ none) (sym added)
          (insert-IsRecorded m.version m.name db.schema_migrations n.version h)
  ]

  -- The three ways through a round.
  after_error :
      (env : MigrationEnv) (db : Connection Tables exec columns_of) (m : Migration)
      (ms : List Migration)
      → env.query_fails m.version ≡ true
      → apply_all Tables exec columns_of env db (m ∷ ms) ≡ (some (asking m.version), db)
  unfolding apply_all
  after_error env db m ms f = ground (arith, f)

  after_known :
      (env : MigrationEnv) (db : Connection Tables exec columns_of) (m : Migration)
      (ms : List Migration) (name : String)
      → env.query_fails m.version ≡ false
      → Dict.lookup m.version db.schema_migrations ≡ some name
      → apply_all Tables exec columns_of env db (m ∷ ms)
        ≡ apply_all Tables exec columns_of env db ms
  unfolding apply_all
  after_known env db m ms name f known = ground (arith, f, known)

  after_new :
      (env : MigrationEnv) (db : Connection Tables exec columns_of) (m : Migration)
      (ms : List Migration)
      → env.query_fails m.version ≡ false
      → Dict.lookup m.version db.schema_migrations ≡ none
      → apply_all Tables exec columns_of env db (m ∷ ms)
        ≡ (elim (apply_migration Tables exec columns_of env db m).0
            as (λ _. Option MigrationError × Connection Tables exec columns_of) [
              | some e ↦ (some e, (apply_migration Tables exec columns_of env db m).1)
              | none ↦
                  apply_all Tables exec columns_of env
                    (apply_migration Tables exec columns_of env db m).1
                    ms
            ])
  unfolding apply_all
  after_new env db m ms f new = ground (arith, f, new)

  apply_all-IsRecorded :
      (env : MigrationEnv) (db : Connection Tables exec columns_of) (ms : List Migration)
      (n : Migration)
      → IsRecorded db n
      → IsRecorded (apply_all Tables exec columns_of env db ms).1 n
  unfolding apply_all
  apply_all-IsRecorded env db [] n h = h
  apply_all-IsRecorded env db (m ∷ ms) n h =
      let Still =
        λ (r : Option MigrationError × Connection Tables exec columns_of). IsRecorded r.1 n in
      elim (Bool-cases (env.query_fails m.version)) [
        | inl f ↦ subst Still (sym (after_error env db m ms f)) h
        | inr f ↦ elim (Option-cases (Dict.lookup m.version db.schema_migrations)) [
          | inr (name, known) ↦
              subst Still (sym (after_known env db m ms name f known))
                (apply_all-IsRecorded env db ms n h)
          | inl new ↦
              let one = apply_migration Tables exec columns_of env db m in
              let kept = apply_migration-IsRecorded env db m n h in
              elim (Option-cases one.0) [
                | inr (e, failed) ↦
                    let stop : apply_all Tables exec columns_of env db (m ∷ ms) ≡ (some e, one.1) =
                      ground (arith, failed, after_new env db m ms f new) in
                    subst Still (sym stop) kept
                | inl good ↦
                    let on : apply_all Tables exec columns_of env db (m ∷ ms)
                        ≡ apply_all Tables exec columns_of env one.1 ms =
                      ground (arith, good, after_new env db m ms f new) in
                    subst Still (sym on) (apply_all-IsRecorded env one.1 ms n kept)
              ]
        ]
      ]

  apply_all-All :
      (env : MigrationEnv) (db db' : Connection Tables exec columns_of) (ms : List Migration)
      → apply_all Tables exec columns_of env db ms ≡ (none, db')
      → All (IsRecorded db') ms
  unfolding apply_all
  apply_all-All env db db' [] h = tt
  apply_all-All env db db' (m ∷ ms) h = elim (Bool-cases (env.query_fails m.version)) [
    | inl f ↦ ground (arith, h, after_error env db m ms f)
    | inr f ↦ elim (Option-cases (Dict.lookup m.version db.schema_migrations)) [
      | inr (name, known) ↦
          let rest : apply_all Tables exec columns_of env db ms ≡ (none, db') =
            sym (after_known env db m ms name f known) ∙ h in
          let here : IsRecorded db m = λ e. ground (arith, e, known) in
          (
            subst (λ r. IsRecorded r.1 m) rest (apply_all-IsRecorded env db ms m here),
            apply_all-All env db db' ms rest,
          )
      | inl new ↦
          let one = apply_migration Tables exec columns_of env db m in
          elim (Option-cases one.0) [
            | inr (e, failed) ↦ ground (arith, h, failed, after_new env db m ms f new)
            | inl good ↦
                let rest : apply_all Tables exec columns_of env one.1 ms ≡ (none, db') =
                  ground (arith, h, good, after_new env db m ms f new) in
                let added = apply_migration-success env db m good in
                let here : IsRecorded one.1 m = λ e. ground (
                  arith,
                  e,
                  added,
                  Dict.lookup-insert_self m.version m.name db.schema_migrations,
                ) in
                (
                  subst (λ r. IsRecorded r.1 m) rest (apply_all-IsRecorded env one.1 ms m here),
                  apply_all-All env one.1 db' ms rest,
                )
          ]
    ]
  ]

  -- If every migration is recorded, nothing is executed.
  apply_all-recorded :
      (env : MigrationEnv) (db : Connection Tables exec columns_of) (ms : List Migration)
      → All (IsRecorded db) ms
      → ((version : ℕ) → env.query_fails version ≡ false)
      → apply_all Tables exec columns_of env db ms ≡ (none, db)
  unfolding apply_all
  apply_all-recorded env db [] a q = refl
  apply_all-recorded env db (m ∷ ms) (here, a) q =
      elim (Option-cases (Dict.lookup m.version db.schema_migrations)) [
        | inl new ↦ absurd (here new)
        | inr (name, known) ↦
            after_known env db m ms name (q m.version) known ∙ apply_all-recorded env db ms a q
      ]

  -- Once a migration of the database has succeeded, every migration is recorded, and the next one with
  -- the same list succeeds and changes nothing, if the database answers it.
  pub migrate-again :
      (migrations : List Migration) (env again : MigrationEnv)
      (db db' : Connection Tables exec columns_of)
      → migrate Tables exec columns_of migrations env (some db) ≡ (none, some db')
      → again.prepare_fails ≡ false
      → ((version : ℕ) → again.query_fails version ≡ false)
      → All (IsRecorded db') migrations
        × (migrate Tables exec columns_of migrations again (some db') ≡ (none, some db'))
  unfolding migrate
  migrate-again migrations env again db db' h prepared asked =
      let run : apply_all Tables exec columns_of env db migrations ≡ (none, db') =
        ground (arith, h) in
      let all = apply_all-All env db db' migrations run in
      (all, ground (arith, prepared, apply_all-recorded again db' migrations all asked))
