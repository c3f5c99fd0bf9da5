-- ===== src/Processors/Config/Checked.antt =====
-- Which settings are accepted, and what becomes of them.
use schema_to_table.Prelude.{
  ◌≡◌, ◌↔◌, ◌⊎◌, refl, subst, ◌∙◌, false, not, ◌&&◌, Option, none, some, arith,
}
use schema_to_table.Text.{Text, codes, trim_space}
use schema_to_table.Text.Equality.{same, same_iff}
use schema_to_table.Outcome.{Error, Outcome, ok, err, ◌>>=◌}
use schema_to_table.Outcome.Laws.{bind-eq-ok}
use schema_to_table.Processors.Config.{
  ParsedConfig, Settings, field, blank, read_settings, check_settings, parse_config,
}

-- The fields of the settings, as they are given.
pub record IsRead (conf : ParsedConfig) (r : Settings) : Type 0 where
  pub dsn : conf.field_string (codes "dsn") ≡ some r.dsn
  pub schema_url_header : conf.field_string (codes "schema_url_header") ≡ some r.schema_url_header
  pub table_name_header : conf.field_string (codes "table_name_header") ≡ some r.table_name_header
  pub pk : conf.field_string (codes "pk") ≡ some r.pk
  pub headers : conf.field_string_map (codes "headers") ≡ some r.headers
  pub create_model : conf.field_bool (codes "create_model") ≡ some r.create_model
  pub schema_ttl : conf.field_duration (codes "schema_ttl") ≡ some r.schema_ttl
  pub on_error : conf.field_string (codes "on_error") ≡ some r.on_error

-- The settings with the required ones trimmed.
abbrev pub trimmed : Settings → Settings
trimmed r = record r {
  dsn = trim_space r.dsn;
  schema_url_header = trim_space r.schema_url_header;
  table_name_header = trim_space r.table_name_header;
  pk = trim_space r.pk;
}

-- Settings that pass the checks.
abbrev pub IsAccepted : Settings → Type 0
IsAccepted r =
    ((r.on_error ≡ codes "abort") ⊎ (r.on_error ≡ codes "per_message"))
    × (blank r.dsn ≡ false)
    × (blank r.schema_url_header ≡ false)
    × (blank r.table_name_header ≡ false)
    × (blank r.pk ≡ false)

field-eq-ok :
    {A : Type 0} (read : Text → Option A) (name : Text) (a : A)
    → field read name ≡ ok a
    → read name ≡ some a
field-eq-ok {A} read name a h = at_read (read name) h
  where
    at_read :
        (o : Option A)
        → ◌≡◌ {A = Outcome A}
            (elim o [ none ↦ err (Error.setting_unreadable name) | some a ↦ ok a ])
            (ok a)
        → o ≡ some a
    at_read none h = cc h
    at_read (some b) h = cc h

check_settings-eq-ok :
    (r c : Settings)
    → check_settings r ≡ ok c
    → ((r.on_error ≡ codes "abort") ⊎ (r.on_error ≡ codes "per_message"))
      × (blank r.dsn ≡ false)
      × (blank r.schema_url_header ≡ false)
      × (blank r.table_name_header ≡ false)
      × (blank r.pk ≡ false)
      × (c ≡ record r {
        dsn = trim_space r.dsn;
        schema_url_header = trim_space r.schema_url_header;
        table_name_header = trim_space r.table_name_header;
        pk = trim_space r.pk;
      })
unfolding check_settings
check_settings-eq-ok r c h =
    ground
      (arith, h, same_iff r.on_error (codes "abort"), same_iff r.on_error (codes "per_message"))

ok_inj : {A : Type 0} (a b : A) → ok a ≡ ok b → a ≡ b
ok_inj a b h = cc h

read_settings-IsRead :
    (conf : ParsedConfig) (r : Settings) → read_settings conf ≡ ok r → IsRead conf r
unfolding read_settings
read_settings-IsRead conf r h =
    let (dsn, d, h₁) = bind-eq-ok (field conf.field_string (codes "dsn")) _ _ h in
    let (url, u, h₂) = bind-eq-ok (field conf.field_string (codes "schema_url_header")) _ _ h₁ in
    let (table, t, h₃) = bind-eq-ok (field conf.field_string (codes "table_name_header")) _ _ h₂ in
    let (pk, p, h₄) = bind-eq-ok (field conf.field_string (codes "pk")) _ _ h₃ in
    let (headers, m, h₅) = bind-eq-ok (field conf.field_string_map (codes "headers")) _ _ h₄ in
    let (create, b, h₆) = bind-eq-ok (field conf.field_bool (codes "create_model")) _ _ h₅ in
    let (ttl, n, h₇) = bind-eq-ok (field conf.field_duration (codes "schema_ttl")) _ _ h₆ in
    let (on_error, e, h₈) = bind-eq-ok (field conf.field_string (codes "on_error")) _ _ h₇ in
    subst (IsRead conf) (ok_inj _ r h₈) (record {
      dsn = field-eq-ok conf.field_string (codes "dsn") dsn d;
      schema_url_header = field-eq-ok conf.field_string (codes "schema_url_header") url u;
      table_name_header = field-eq-ok conf.field_string (codes "table_name_header") table t;
      pk = field-eq-ok conf.field_string (codes "pk") pk p;
      headers = field-eq-ok conf.field_string_map (codes "headers") headers m;
      create_model = field-eq-ok conf.field_bool (codes "create_model") create b;
      schema_ttl = field-eq-ok conf.field_duration (codes "schema_ttl") ttl n;
      on_error = field-eq-ok conf.field_string (codes "on_error") on_error e;
    })

after_field :
    {A B : Type 0} (read : Text → Option A) (name : Text) (a : A) (f : A → Outcome B)
    → read name ≡ some a
    → (field read name >>= f) ≡ f a
after_field {A} {B} read name a f h = rw (◌>>=◌, field, h) refl

read_settings_ok : (conf : ParsedConfig) (r : Settings) → IsRead conf r → read_settings conf ≡ ok r
unfolding read_settings
read_settings_ok conf r i =
    after_field conf.field_string (codes "dsn") r.dsn _ i.dsn
    ∙ after_field conf.field_string (codes "schema_url_header") r.schema_url_header _
        i.schema_url_header
    ∙ after_field conf.field_string (codes "table_name_header") r.table_name_header _
        i.table_name_header
    ∙ after_field conf.field_string (codes "pk") r.pk _ i.pk
    ∙ after_field conf.field_string_map (codes "headers") r.headers _ i.headers
    ∙ after_field conf.field_bool (codes "create_model") r.create_model _ i.create_model
    ∙ after_field conf.field_duration (codes "schema_ttl") r.schema_ttl _ i.schema_ttl
    ∙ after_field conf.field_string (codes "on_error") r.on_error _ i.on_error

check_settings_ok : (r : Settings) → IsAccepted r → check_settings r ≡ ok (trimmed r)
unfolding check_settings
check_settings_ok r (k, a, b, c, d) = rw (known k, a, b, c, d) refl
  where
    known :
        (r.on_error ≡ codes "abort") ⊎ (r.on_error ≡ codes "per_message")
        → (not (same r.on_error (codes "abort")) && not (same r.on_error (codes "per_message")))
          ≡ false
    known k =
        ground
          (arith, k, same_iff r.on_error (codes "abort"), same_iff r.on_error (codes "per_message"))

-- parseConfig accepts just the configurations of which every field can be read, of which no required
-- field is blank, and whose on_error is abort or per_message; it returns the fields, the required
-- ones trimmed.
pub parse_config-eq-ok :
    (conf : ParsedConfig) (c : Settings)
    → (parse_config conf ≡ ok c) ↔ ((r : Settings) × IsRead conf r × IsAccepted r × (c ≡ trimmed r))
unfolding parse_config
parse_config-eq-ok conf c = (
  λ h.
      let (r, read, checked) = bind-eq-ok (read_settings conf) check_settings c h in
      let (k, g₁, g₂, g₃, g₄, eq) = check_settings-eq-ok r c checked in
      (r, read_settings-IsRead conf r read, (k, g₁, g₂, g₃, g₄), eq),
  λ (r, i, accepted, eq). rw (read_settings_ok conf r i, check_settings_ok r accepted, eq) refl,
)
