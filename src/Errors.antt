-- ===== src/Errors.antt =====
-- errors/errors.go and errkind/errkind.go: the classified errors, their texts and the chain that
-- `errors.Is` follows. An error of another package is `external`. The kind that a constructor takes
-- is never the empty one here, which would select a default.
pub mod Matching
use dorm.Prelude.{
  ℕ, ltb, Bool, true, false, List, [], ◌∷◌, ◌++◌, Text, txt, text_eq, join as join_texts, itoa,
  is_nil, map, ◌&&◌, ◌||◌, ◌≡◌, refl, ◌⊎◌, inl, inr, if◌then◌else◌,
}

pub data Kind : Type 0 where
  not_found already_exists conflict invalid_model invalid_relationship migration_required : Kind
  schema_drift invalid_context missing_company policy_denied seed_conflict : Kind
  driver_not_registered unsupported_dialect transaction_closed commit_failed : Kind
  rollback_failed optimistic_lock_failed raw_sql_policy_required configuration : Kind
  invalid_schema unsupported_feature migration_generation migration_application : Kind
  runtime_query access_violation : Kind

-- The strings behind the kinds, by which Go compares.
unfoldable pub kind_text : Kind → Text
kind_text not_found = txt "not_found"
kind_text already_exists = txt "already_exists"
kind_text conflict = txt "conflict"
kind_text invalid_model = txt "invalid_model"
kind_text invalid_relationship = txt "invalid_relationship"
kind_text migration_required = txt "migration_required"
kind_text schema_drift = txt "schema_drift"
kind_text invalid_context = txt "invalid_context"
kind_text missing_company = txt "missing_company"
kind_text policy_denied = txt "policy_denied"
kind_text seed_conflict = txt "seed_conflict"
kind_text driver_not_registered = txt "driver_not_registered"
kind_text unsupported_dialect = txt "unsupported_dialect"
kind_text transaction_closed = txt "transaction_closed"
kind_text commit_failed = txt "commit_failed"
kind_text rollback_failed = txt "rollback_failed"
kind_text optimistic_lock_failed = txt "optimistic_lock_failed"
kind_text raw_sql_policy_required = txt "raw_sql_policy_required"
kind_text configuration = txt "configuration"
kind_text invalid_schema = txt "invalid_schema"
kind_text unsupported_feature = txt "unsupported_feature"
kind_text migration_generation = txt "migration_generation"
kind_text migration_application = txt "migration_application"
kind_text runtime_query = txt "runtime_query"
kind_text access_violation = txt "access_violation"

-- The typed errors, without their base. The values of a seed conflict are as `%v` prints them.
-- `missing_context_error` is access/engine.go's.
pub data Details : Type 0 where
  validation_error : (model field reason : Text) → Details
  schema_error : (expected actual diff : Text) → Details
  migration_error : (file statement : Text) (line : ℕ) → Details
  driver_error : (driver operation : Text) → Details
  access_error : (operation policy field reason : Text) → Details
  seed_error : (model key : Text) (conflict : List (Text × Text)) → Details
  raw_sql_policy_error : (operation hint : Text) → Details
  transaction_error : (operation savepoint : Text) → Details
  missing_context_error : (operation field reason : Text) → Details

-- `new` and `wrap` are an `Error` without and with a cause, `typed` a typed error with its base,
-- `join` the standard library's `errors.Join` of two errors, `context` `fmt.Errorf` with `%w`.
pub data Error : Type 0 where
  new : Kind → Text → Error
  wrap : Kind → Text → Error → Error
  typed : Details → Error → Error
  join : Error → Error → Error
  context : Text → Error → Error
  external : Text → Error

-- A part of a message that is left out where it is empty.
part : Text → Text → List Text
part label t = if is_nil t then [] else (label ++ t) ∷ []

message : Text → List Text → Text
message head parts = join_texts (txt ": ") (head ∷ parts)

conflict_values : List (Text × Text) → List Text
conflict_values [] = []
conflict_values ((k, v) ∷ rest) = (k ++ (txt "=" ++ v)) ∷ conflict_values rest

line_part : ℕ → List Text
line_part n = if ltb 0 n then (txt "line=" ++ itoa n) ∷ [] else []

-- The `build...Message` functions; a conflict has its keys in order.
unfoldable pub details_message : Details → Text
unfolding part message line_part conflict_values
details_message (validation_error model field reason) =
    message (txt "validation failed") (part [] model ++ (part [] field ++ part [] reason))
details_message (schema_error expected actual diff) =
    message (txt "schema error")
      (part (txt "expected=") expected ++ (part (txt "actual=") actual ++ part (txt "diff=") diff))
details_message (migration_error file statement line) =
    message (txt "migration error")
      (part (txt "file=") file ++ (line_part line ++ part (txt "statement=") statement))
details_message (driver_error driver operation) =
    message (txt "driver error") (part (txt "driver=") driver ++ part (txt "operation=") operation)
details_message (access_error operation policy field reason) = message (txt "access error") (
    part (txt "operation=") operation
    ++ (part (txt "policy=") policy ++ (part (txt "field=") field ++ part (txt "reason=") reason)))
details_message (seed_error model key values) = message (txt "seed conflict") (
    part (txt "model=") model
    ++ (part (txt "key=") key
        ++ (if is_nil values then [] else join_texts (txt ",") (conflict_values values) ∷ [])))
details_message (raw_sql_policy_error operation hint) =
    message (txt "raw SQL requires an explicit policy decision")
      (part (txt "operation=") operation ++ part [] hint)
details_message (transaction_error operation savepoint) =
    message (txt "transaction error")
      (part (txt "operation=") operation ++ part (txt "savepoint=") savepoint)
details_message (missing_context_error operation field reason) =
    txt "access: "
    ++ (operation
        ++ (txt " requires " ++ (field ++ (if is_nil reason then [] else txt ": " ++ reason))))

-- A typed error as its `New` function makes it, without and with a cause.
abbrev pub detailed : Kind → Details → Error
detailed kind d = typed d (new kind (details_message d))

abbrev pub detailed_by : Kind → Details → Error → Error
detailed_by kind d cause = typed d (wrap kind (details_message d) cause)

abbrev pub transaction : Kind → Text → Text → Error
transaction kind operation savepoint = detailed kind (transaction_error operation savepoint)

abbrev pub transaction_caused : Kind → Text → Text → Error → Error
transaction_caused kind operation savepoint cause =
    detailed_by kind (transaction_error operation savepoint) cause

abbrev pub schema : Kind → Text → Text → Text → Error
schema kind expected actual diff = detailed kind (schema_error expected actual diff)

base_message : Error → Text
base_message (new k m) = m
base_message (wrap k m e) = m
base_message _ = []

is_missing_context : Details → Bool
is_missing_context (missing_context_error operation field reason) = true
is_missing_context _ = false

-- `Error()`. A typed error gives its base's text where the base has a message; the base of a missing
-- context is an access error, whose text it gives in any case.
unfoldable pub error_text : Error → Text
unfolding kind_text base_message is_missing_context details_message
error_text (new k m) = if is_nil m then kind_text k else m
error_text (wrap k m e) =
    let rest = txt ": " ++ error_text e in if is_nil m then kind_text k ++ rest else m ++ rest
error_text (typed d b) =
    let base = error_text b in
    if is_missing_context d
    then base
    else if is_nil (base_message b)
    then details_message d
    else base
error_text (join a b) = error_text a ++ (b'\n' ∷ error_text b)
error_text (context m e) = m ++ (txt ": " ++ error_text e)
error_text (external t) = t

unfoldable pub same_kind : Kind → Kind → Bool
unfolding kind_text text_eq
same_kind a b = text_eq (kind_text a) (kind_text b)

-- The four kinds that `MissingContextError.Is` accepts whatever its base is.
is_context_kind : Kind → Bool
is_context_kind invalid_context = true
is_context_kind missing_company = true
is_context_kind policy_denied = true
is_context_kind access_violation = true
is_context_kind _ = false

-- `errors.Is` of an error and a classified error of a kind: the chain of `Unwrap`, with each `Is`.
unfoldable pub is : Error → Kind → Bool
unfolding same_kind is_missing_context is_context_kind
is (new k m) t = same_kind k t
is (wrap k m e) t = same_kind k t || is e t
is (typed d b) t = (is_missing_context d && is_context_kind t) || is b t
is (join a b) t = is a t || is b t
is (context m e) t = is e t
is (external m) t = false

pub data Result {ℓ} (A : Type ℓ) : Type ℓ where
  ok : A → Result A
  err : Error → Result A

infixl 5 ◌>>=◌ ◌>>◌
abbrev pub ◌>>=◌ {ℓ κ} : {A : Type ℓ} {B : Type κ} → Result A → (A → Result B) → Result B
ok a >>= f = f a
err e >>= f = err e

abbrev pub ◌>>◌ {ℓ κ} : {A : Type ℓ} {B : Type κ} → Result A → Result B → Result B
m >> k = m >>= λ _. k

abbrev pub guard : Bool → Error → Result (Unit {0})
guard true e = ok tt
guard false e = err e

-- To split on a computed result and keep the equation.
pub Result-cases {ℓ} :
    {A : Type ℓ} (r : Result A) → ((a : A) × (r ≡ ok a)) ⊎ ((e : Error) × (r ≡ err e))
Result-cases (ok a) = inl (a, refl)
Result-cases (err e) = inr (e, refl)
