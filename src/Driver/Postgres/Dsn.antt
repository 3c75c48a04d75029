-- ===== src/Driver/Postgres/Dsn.antt =====
-- The connection string is read back as its settings.
use dorm.Prelude.{
  ℕ, ◌==◌, true, false, Option, some, List, [], ◌∷◌, ◌++◌, map, ◌≡◌, refl, ap, ◌∙◌, arith, All,
  All-append, append_assoc, Text, txt, is_nil, trim, split, cut, add_first,
}
use dorm.Driver.Postgres.{Config, settings, setting_text, render_settings, dsn_of}

-- The character does not occur.
abbrev pub IsWithout : ℕ → Text → Type 0
IsWithout c = All (λ d. (d == c) ≡ false)

split-last : (sep : ℕ) (s : Text) → IsWithout sep s → split sep s ≡ s ∷ []
unfolding split add_first
split-last sep [] h = refl
split-last sep (c ∷ cs) h = rw (split, split-last sep cs h.1, h.0) refl

split-append : (sep : ℕ) (s t : Text) → IsWithout sep s → split sep (s ++ sep ∷ t) ≡ s ∷ split sep t
unfolding split add_first
split-append sep [] t h = ground arith
split-append sep (c ∷ cs) t h = rw (split, split-append sep cs t h.1, h.0) refl

cut-append : (sep : ℕ) (s t : Text) → IsWithout sep s → cut sep (s ++ sep ∷ t) ≡ some (s, t)
unfolding cut
cut-append sep [] t h = ground arith
cut-append sep (c ∷ cs) t h = rw (cut, cut-append sep cs t h.1, h.0) refl

-- A key that a connection string can have.
abbrev pub IsKey : Text → Type 0
IsKey k = IsWithout 32 k × IsWithout b'=' k

-- A reader of connection strings: the settings stand between spaces, each with its first equals sign
-- behind its key.
unfoldable pub read_settings : Text → List (Option (Text × Text))
unfolding split cut
read_settings s = map (cut b'=') (split 32 s)

module _ (escape : Text → Text) (plain : (t : Text) → IsWithout 32 (escape t)) where
  setting_text-plain : (e : Text × Text) → IsKey (e.0) → IsWithout 32 (setting_text escape e)
  unfolding setting_text
  setting_text-plain e k =
      All-append (λ d. (d == 32) ≡ false) (e.0 ++ txt "=") (escape (e.1))
        (All-append (λ d. (d == 32) ≡ false) (e.0) (txt "=") (k.0) (ground arith, tt)) (plain (e.1))

  cut-setting_text :
      (e : Text × Text) → IsKey (e.0) → cut b'=' (setting_text escape e) ≡ some (e.0, escape (e.1))
  unfolding setting_text
  cut-setting_text e k =
      ap (cut b'=') (append_assoc (e.0) (txt "=") (escape (e.1)))
      ∙ cut-append b'=' (e.0) (escape (e.1)) (k.1)

  read-render :
      (e : Text × Text) (es : List (Text × Text))
      → All (λ (f : Text × Text). IsKey (f.0)) (e ∷ es)
      → read_settings (render_settings escape (e ∷ es))
        ≡ map (λ (f : Text × Text). some (f.0, escape (f.1))) (e ∷ es)
  unfolding read_settings render_settings
  read-render e [] h =
      ap (map (cut b'=')) (split-last 32 (setting_text escape e) (setting_text-plain e (h.0)))
      ∙ ap (λ x. x ∷ []) (cut-setting_text e (h.0))
  read-render e (f ∷ es) h =
      ap (map (cut b'=')) (
        split-append 32 (setting_text escape e) (render_settings escape (f ∷ es))
          (setting_text-plain e (h.0)))
      ∙ ap (λ x. x ∷ read_settings (render_settings escape (f ∷ es))) (cut-setting_text e (h.0))
      ∙ ap (λ l. some (e.0, escape (e.1)) ∷ l) (read-render f es (h.1))

-- Where no connection string is configured and something else is, where escaped values have no space,
-- and where no key has a space or an equals sign: the string that the driver is opened with is read back
-- as the settings that are not blank, in their order, each with its escaped value.
pub read-dsn :
    (escape : Text → Text) (cfg : Config)
    → ((t : Text) → IsWithout 32 (escape t))
    → is_nil (trim cfg.dsn) ≡ true
    → is_nil (settings cfg) ≡ false
    → All (λ (e : Text × Text). IsKey (e.0)) (settings cfg)
    → read_settings (dsn_of escape cfg)
      ≡ map (λ (e : Text × Text). some (e.0, escape (e.1))) (settings cfg)
unfolding dsn_of
read-dsn escape cfg plain blank filled keys = rw blank (on_list (settings cfg) filled keys)
  where
    on_list :
        (l : List (Text × Text))
        → is_nil l ≡ false
        → All (λ (e : Text × Text). IsKey (e.0)) l
        → read_settings (render_settings escape l)
          ≡ map (λ (e : Text × Text). some (e.0, escape (e.1))) l
    on_list [] f k = absurd (ground (arith, f))
    on_list (e ∷ es) f k = read-render escape plain e es k
