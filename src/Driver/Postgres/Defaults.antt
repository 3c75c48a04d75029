-- ===== src/Driver/Postgres/Defaults.antt =====
-- The defaults of a configuration.
use dorm.Prelude.{ℕ, ◌==◌, false, ◌≡◌, refl, arith, Text, txt, is_nil}
use dorm.Driver.Postgres.{Config, default_driver_name, normalize_config, text_or, count_or}

text_or_idem : (t default : Text) → text_or (text_or t default) default ≡ text_or t default
unfolding text_or
text_or_idem t default = ground arith

count_or_idem : (n default : ℕ) → count_or (count_or n default) default ≡ count_or n default
unfolding count_or
count_or_idem n default = ground arith

text_or_filled : (t default : Text) → is_nil default ≡ false → is_nil (text_or t default) ≡ false
unfolding text_or
text_or_filled t default h = ground (arith, h)

-- Every setting that has a default is there after normalising.
abbrev pub IsFilled : Config → Type 0
IsFilled cfg =
    (is_nil cfg.driver_name ≡ false)
    × (is_nil cfg.host ≡ false)
    × ((cfg.port == 0) ≡ false)
    × (is_nil cfg.ssl_mode ≡ false)
    × (is_nil cfg.timezone ≡ false)
    × (is_nil cfg.search_path ≡ false)
    × (is_nil cfg.schema_name ≡ false)
    × ((cfg.max_open_conns == 0) ≡ false)
    × ((cfg.max_idle_conns == 0) ≡ false)

count_or_filled : (n default : ℕ) → (default == 0) ≡ false → (count_or n default == 0) ≡ false
unfolding count_or
count_or_filled n default h = ground (arith, h)

-- Normalising a configuration fills in every setting that has a default, and normalising it again
-- changes nothing.
pub normalize_config_idem :
    (cfg : Config)
    → IsFilled (normalize_config cfg)
      × (normalize_config (normalize_config cfg) ≡ normalize_config cfg)
unfolding normalize_config
normalize_config_idem cfg = (
  (
    text_or_filled cfg.driver_name default_driver_name refl,
    text_or_filled cfg.host (txt "localhost") refl,
    count_or_filled cfg.port 5432 (ground arith),
    text_or_filled cfg.ssl_mode (txt "disable") refl,
    text_or_filled cfg.timezone (txt "UTC") refl,
    text_or_filled cfg.search_path (txt "public") refl,
    text_or_filled cfg.schema_name (txt "public") refl,
    count_or_filled cfg.max_open_conns 25 (ground arith),
    count_or_filled cfg.max_idle_conns 25 (ground arith),
  ),
  rw
      (
        text_or_idem cfg.driver_name default_driver_name,
        text_or_idem cfg.host (txt "localhost"),
        count_or_idem cfg.port 5432,
        text_or_idem cfg.ssl_mode (txt "disable"),
        text_or_idem cfg.timezone (txt "UTC"),
        text_or_idem cfg.search_path (txt "public"),
        text_or_idem cfg.schema_name (txt "public"),
        count_or_idem cfg.max_open_conns 25,
        count_or_idem cfg.max_idle_conns 25,
        count_or_idem cfg.conn_max_lifetime 3600000000000,
        count_or_idem cfg.conn_max_idle_time 900000000000,
      )
      refl,
)
