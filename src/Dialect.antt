-- ===== src/Dialect.antt =====
-- dialect/dialect.go: what the ORM asks of a SQL dialect. The names, capabilities and the schema
-- statements of the interface are modelled with the one dialect that implements it.
pub mod Placeholders
pub mod Postgres
use dorm.Prelude.{ℕ, Bool, Option, List, Text}
use dorm.Value.{ℤ}
use dorm.Errors.{Result}

pub record SelectParts : Type 0 where
  pub table : Text
  pub columns : List Text
  pub distinct : Bool
  pub joins : List Text
  pub where_ : List Text
  pub group_by : List Text
  pub having : List Text
  pub order_by : List Text
  pub limit : Option ℤ
  pub offset : Option ℤ

pub record Dialect : Type 0 where
  pub quote_ident : Text → Text
  pub placeholder : ℕ → Text
  pub render_select : SelectParts → Result Text
  pub render_insert : Text → List Text → List Text → Result Text
  pub render_update : Text → List Text → List Text → List Text → Result Text
  pub render_delete : Text → List Text → List Text → Result Text
