-- ===== src/Lib.antt =====
-- dorm: a Go ORM with an access policy engine, soft deletion, audit fields, optimistic locking,
-- transactions with savepoints and batches, and one SQL dialect, PostgreSQL.
--
-- A session (orm/orm.go) turns a query or a write into a statement of a dialect (dialect/) and asks
-- the policy engine (access/engine.go) which predicates and values the statement must have, given
-- the context's identities and policy level (access/policy.go, access/context.go). The statement
-- runs on a handle (orm/transaction.go), which is a pool or a transaction; a batch (orm/batch.go)
-- runs many writes in one transaction. Tables and columns are the records of schema/types.go; the
-- difference of two schemas (schema/diff.go) is what a migration is generated from
-- (migrate/migrate.go). A schema is built from Go source (schema/builder.go), where a struct's traits
-- are the structs it embeds, and at run time the same columns are found by reflection
-- (schema/traits.go); built schemas are cached (schema/cache.go). Seeders run on handles too, each
-- after those it depends on (seed/seed.go), and the analyzer looks at the text of a query and at its
-- table (analyzer/analyzer.go). A dry run is a session whose connection only records
-- (orm/dryrun.go). A driver opens the pool (driver/postgres/postgres.go).
--
-- Prelude         lists, text and trimming: Go strings are lists of code points
-- Value           values of type `any`
-- Errors          errors/errors.go and errkind/errkind.go: the typed errors, their texts, errors.Is
-- Schema/Types    schema/types.go: Schema, Table, Column, Index, Constraint, ScopeKind
-- Schema/Names    schema/util.go: ToSnakeCase, Pluralize
-- Schema/Keys     the maps by name of schema/diff.go; the sorts of schema/types.go
-- Schema/Diff     schema/diff.go: Compare, compareTable, columnsEqual, indexesEqual, constraintsEqual;
--                 Sort of schema/types.go
-- Schema/Validate schema/types.go: Validate
-- Schema/Tags     schema/builder.go, schema/traits.go: parseORMTag, parseStructTag, splitCSV
-- Schema/GoTypes  the Go types and type expressions that the two read
-- Schema/CustomTypes  schema/custom_types.go: RegisterCustomType, ResolveCustomType
-- Schema/Columns  inferType, reflectTypeToSchemaType; Schema/Columns/Source: buildColumn of
--                 schema/builder.go; Schema/Columns/Reflected: columnFromReflectField of
--                 schema/traits.go
-- Schema/Builder  schema/builder.go, schema/import_resolver.go: the embedded structs;
--                 Schema/Builder/Columns: buildColumnsFromStruct; Schema/Builder/Tables:
--                 buildTableFromType, buildViewFromType; Schema/Builder/Packages: the collectors;
--                 Schema/Builder/Build: Build
-- Schema/Cache    schema/cache.go: loadCachedSchema, storeCachedSchema, sourceFingerprint
-- Schema/Traits   schema/traits.go: discoverTypeMetadata, ColumnsFromType, StructFieldIndexMap
-- Schema/Snapshot schema/snapshot.go: LoadSnapshot, SaveSnapshot
-- Schema/Drift    schema/drift.go: detectDrift, detectDriftWithSnapshot, DetectDriftFromSource, Clean
-- Dialect         dialect/dialect.go, dialect/placeholders.go: BindPlaceholders
-- Dialect/Postgres dialect/postgres/postgres.go: QuoteIdent, RenderSelect, RenderInsert, RenderUpdate,
--                 RenderDelete
-- Dialect/Postgres/Columns  the same file: ColumnDefinition
-- Dialect/Postgres/Migration  the same file: RenderOperation, RenderMigration
-- Dialect/Postgres/Views  dialect/postgres/views.go: RenderView, RenderDropView, RenderPredicate
-- Access/Policy   access/policy.go, access/context.go: Policy, WithPolicy, PolicyFromContext
-- Access/Engine   access/engine.go, access/soft_delete.go: Apply, validateContextForOperation
-- Orm/Query       orm/orm.go: buildState, countState, buildSelectSQL; Orm/Query/Options: the query
--                 options
-- Orm/Write       orm/orm.go: populateAuditAndScope, applyStructFieldValues, updateSetClauses,
--                 buildWhereClauses, accessPredicates; Orm/Write/Models: fieldByColumn and
--                 setFieldByColumn; Orm/Write/Versions: optimisticLockingInfo
-- Orm/Session     orm/orm.go: create, update, delete, softDelete, Upsert, execReturning;
--                 Orm/Session/Statements: the statements of update, softDelete and delete
-- Orm/Transaction orm/transaction.go: Begin, Commit, Rollback, Transaction; execContext and
--                 queryContext of orm/orm.go
-- Orm/Batch       orm/batch.go: batchWrite; batchSizeLimit of orm/orm.go
-- Orm/Relations   orm/hooks_relations.go: the field lookup and the keys, appendAccessWhere;
--                 Orm/Relations/Loading: Load, Preload
-- Orm/DryRun      orm/dryrun.go, orm/dryrun_session.go, orm/execution_report.go: the recorder, the
--                 connection, run; Orm/DryRun/Calls: the calls of a recorder; Orm/DryRun/Events: what
--                 the writes of orm/orm.go record; Orm/DryRun/Sessions: a session over that connection
-- Orm/Raw         orm/raw.go: Raw, WithoutPolicy, Scan, Exec
-- Migrate         migrate/migrate.go: invertDiff
-- Migrate/Service the same file: Run, Revert, Status, the table orm_migrations
-- Migrate/Generation, Migrate/Writing  the same file: Generate, Write
-- Seed            seed/seed.go: Register, Registered, resolveSeederOrder, Run
-- Analyzer        analyzer/analyzer.go: the index tests of the rules
-- Analyzer/Parse, Analyzer/Report  the same file: ParseSQL; the rules, buildContext, Analyze
-- Driver/Postgres driver/postgres/postgres.go: normalizeConfig, dsn, ensureRegistered, Open
-- Examples        concrete inputs and runs
--
-- State is passed on: a session's calls are functions of a state of the driver (Orm/Exec), with what
-- was done before an error kept. Transaction handles point to states by address; the world holds
-- the addresses that are closed. The database, the hooks of a model, the conversion of a value to
-- a field's type and Go's character tables are parameters. A model is an association list from its
-- index keys to its values. Integers are native numbers; a version is incremented in its
-- type's width, and the savepoint counter in 64 bits. `run_chunks` takes fuel, one round for each
-- item of the batch, and a chunk that is not empty uses one up. `order_loop` takes fuel, one
-- round for each seeder, since a seeder is put into the queue once. `build_columns_from_struct` and
-- `collect_type_metadata` take fuel, one for each embedded struct that is entered; a name is entered
-- once, so that more fuel than there are names of structs is enough.
--
-- Not modelled: reflection itself (which table a type has, how a row becomes a struct; the fields of a
-- type are a parameter), tracing, metrics and logs, which only observe; locks, panics, prepared
-- statements; the Go parser, the regular expressions of the analyzer and of directives; the caches of
-- snapshots and of parsed packages, encoding/json, the inspector, the synchronisation of
-- single seeds, the rows of a dry run and the command line.
pub mod Prelude
pub mod Value
pub mod Errors
pub mod Schema
pub mod Dialect
pub mod Access
pub mod Orm
pub mod Migrate
pub mod Seed
pub mod Analyzer
pub mod Driver
pub mod Examples
