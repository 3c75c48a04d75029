-- ===== src/Driver.antt =====
-- driver/: the drivers that Open takes. What driver/driver.go declares is an interface of one
-- implementation, driver/postgres/postgres.go.
pub mod Postgres
