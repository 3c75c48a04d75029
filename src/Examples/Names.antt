-- ===== src/Examples/Names.antt =====
-- Names and identifiers.
use dorm.Prelude.{◌≡◌, refl, some, ◌++◌, txt}
use dorm.Schema.Names.{to_snake_case, pluralize}
use dorm.Dialect.Placeholders.{bind_placeholders}
use dorm.Dialect.Postgres.{postgres, placeholder, quote_ident}
use dorm.Dialect.Postgres.Quote.{read_ident, read_ident-quote_ident}
use dorm.Examples.Data.{ascii}

snake_of_acronym : to_snake_case ascii (txt "UserID") ≡ txt "user_id"
unfolding to_snake_case
snake_of_acronym = refl

plural_of_category : pluralize (txt "category") ≡ txt "categories"
unfolding pluralize
plural_of_category = refl

quote_ident_example :
    read_ident (quote_ident (txt "a\"; DROP TABLE x") ++ txt " = $1")
    ≡ some (txt "a\"; DROP TABLE x", txt " = $1")
quote_ident_example = read_ident-quote_ident (txt "a\"; DROP TABLE x") (txt " = $1") refl

placeholders_run :
    bind_placeholders (txt "a = ? AND b = ?") (some postgres) ≡ txt "a = $1 AND b = $2"
unfolding bind_placeholders placeholder
placeholders_run = refl
