-- ===== src/Access/Engine/Checks.antt =====
-- When the engine accepts a context: the loop of checks against a description of what a column
-- wants, and how the checks of different operations compare.
use dorm.Prelude.{
  true, false, none, some, List, [], ◌∷◌, ◌≡◌, ◌≢◌, refl, arith, In, here, there, ◌||◌, ◌↔◌,
}
use dorm.Schema.Types.{Column, Table}
use dorm.Access.Policy.{Context, Policy, is_system, allows_scope}
use dorm.Access.Engine.{
  Operation, insert, update, delete, scope_value, column_check, validate_columns,
  validate_context_for_operation,
}

-- What a column wants of a context: the identity of its scope, if the policy lets that scope
-- through, and a user, if the operation fills one of its audit fields.
pub record IsServed (ac : Context) (op : Operation) (policy : Policy) (col : Column) : Type 0 where
  pub scoped : allows_scope policy col.scope ≡ true → scope_value ac col.scope ≢ some none
  pub on_insert :
      is_system policy ≡ false
      → op ≡ insert
      → (col.created_by || col.updated_by || col.deleted_by) ≡ true
      → ac.user_id ≢ none
  pub on_update : is_system policy ≡ false → op ≡ update → col.updated_by ≡ true → ac.user_id ≢ none
  pub on_delete : is_system policy ≡ false → op ≡ delete → col.deleted_by ≡ true → ac.user_id ≢ none

column_check-IsServed :
    (ac : Context) (op : Operation) (policy : Policy) (col : Column)
    → column_check ac op policy col ≡ none
    → IsServed ac op policy col
unfolding column_check
column_check-IsServed ac op policy col h = ground arith

IsServed-column_check :
    (ac : Context) (op : Operation) (policy : Policy) (col : Column)
    → IsServed ac op policy col
    → column_check ac op policy col ≡ none
unfolding column_check
IsServed-column_check ac op policy col h = ground arith

validate_columns-IsServed :
    (ac : Context) (op : Operation) (policy : Policy) (cols : List Column)
    → validate_columns ac op policy cols ≡ none
    → {col : Column} → In col cols
    → IsServed ac op policy col
unfolding validate_columns
validate_columns-IsServed ac op policy [] h i = elim i [ ]
validate_columns-IsServed ac op policy (c ∷ cols) h here =
    column_check-IsServed ac op policy c (ground arith)
validate_columns-IsServed ac op policy (c ∷ cols) h (there i) =
    validate_columns-IsServed ac op policy cols (ground arith) i

IsServed-validate_columns :
    (ac : Context) (op : Operation) (policy : Policy) (cols : List Column)
    → ((col : Column) → In col cols → IsServed ac op policy col)
    → validate_columns ac op policy cols ≡ none
unfolding validate_columns
IsServed-validate_columns ac op policy [] h = refl
IsServed-validate_columns ac op policy (c ∷ cols) h =
    rw (IsServed-column_check ac op policy c (h c here), validate_columns)
      (IsServed-validate_columns ac op policy cols (λ col i. h col (there i)))

-- The check of a context passes exactly when the policy is the system policy or the context serves
-- every column of the table.
pub validate-iff_IsServed :
    (ac : Context) (table : Table) (op : Operation) (policy : Policy)
    → is_system policy ≡ false
    → (validate_context_for_operation ac table op policy ≡ none)
      ↔ ((col : Column) → In col table.columns → IsServed ac op policy col)
unfolding validate_context_for_operation
validate-iff_IsServed ac table op policy s = (
  λ h col i. validate_columns-IsServed ac op policy table.columns (rw s at h) i,
  λ h. rw s (IsServed-validate_columns ac op policy table.columns h),
)
