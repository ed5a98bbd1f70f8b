-- ===== src/Migrate/Tests.antt =====
-- A file that sets two variables.
use sender_report.Base.{◌≡◌, refl, some, List, [], ◌∷◌, length}
use sender_report.Text.{Bytes, codes, trim, trim_space}
use sender_report.Migrate.{key_of, migrate_lines}
use sender_report.Migrate.Stable.{IsMigrated}
use sender_report.Migrate.Table.{all_vars}
use sender_report.Migrate.Listed.{all_vars-IsMigrated}

abbrev old_file : List Bytes
old_file = codes "# mine" ∷ codes " export APP_NAME = Mails" ∷ codes "SMTP_PORT=2525" ∷ []

exported : key_of (codes " export APP_NAME = Mails") ≡ some (codes "APP_NAME")
unfolding key_of trim_space trim
exported = refl

-- All but two are added.
count_added : length (migrate_lines (codes "1.0") (codes "2026-01-01") all_vars old_file).0 ≡ 57
unfolding migrate_lines key_of trim_space trim all_vars
count_added = refl

all_vars-IsMigrated_example :
    IsMigrated all_vars old_file
      (migrate_lines (codes "1.0") (codes "2026-01-01") all_vars old_file)
all_vars-IsMigrated_example = all_vars-IsMigrated (codes "1.0") (codes "2026-01-01") old_file
