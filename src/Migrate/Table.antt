-- ===== src/Migrate/Table.antt =====
-- The table All of internal/envmigrate/migrate.go, with the constants of internal/config in place.
use sender_report.Base.{List, [], ◌∷◌, ◌++◌}
use Prim.Native.String.{String}
use sender_report.Text.{codes}
use sender_report.Migrate.{VarDef}

-- A variable of a group.
abbrev first_var : String → String → String → String → VarDef
first_var group key default comment = record {
  key = codes key;
  default = codes default;
  comment = codes comment;
  group = codes group;
}

abbrev next_var : String → String → String → VarDef
next_var key default comment = first_var "" key default comment

abbrev pub service_vars : List VarDef
service_vars =
    (first_var "App" "APP_NAME" "Sender-Report" "Application display name")
    ∷ (first_var "Listen addresses (do NOT change when using Docker)" "HTTP_LISTEN_ADDR" ":8080"
        "Internal HTTP listen address inside the container")
    ∷ (next_var "SMTP_LISTEN_ADDR" ":2525" "Internal SMTP listen address inside the container")
    ∷ (first_var "Public URLs" "PUBLIC_BASE_URL" ""
        "Override auto-detected public base URL, e.g. https://sender-report.example.com")
    ∷ (next_var "SMTP_DOMAIN" "" "SMTP domain for generated addresses; defaults to request host")
    ∷ (first_var "TLS" "ENABLE_TLS" "false" "Enable built-in TLS for the web server")
    ∷ (next_var "TLS_CERT_FILE" "" "Path to TLS certificate (required when ENABLE_TLS=true)")
    ∷ (next_var "TLS_KEY_FILE" "" "Path to TLS private key (required when ENABLE_TLS=true)")
    ∷ (next_var "FORCE_HTTPS" "false" "Redirect plain HTTP to HTTPS")
    ∷ (next_var "FORCE_HTTPS_EXEMPT_PATHS" "/healthz,/readyz"
        "Paths that answer over plain HTTP although FORCE_HTTPS is set; an entry ending in / covers the paths below it, none redirects every path")
    ∷ (first_var "Docker / Compose" "SENDER_REPORT_IMAGE" "ghcr.io/brightcolor/sender-report:latest"
        "Container image used by docker-compose")
    ∷ (next_var "HTTP_PORT" "9090" "Host port mapped to the web UI (container always uses :8080)")
    ∷ (next_var "SMTP_PORT" "25" "Host port for inbound SMTP (use 25 in production)")
    ∷ (next_var "HEALTHCHECK_URL" "http://127.0.0.1:9090/healthz"
        "Health-check URL used by the compose healthcheck")
    ∷ (first_var "Storage" "DATA_DIR" "/data" "Base directory for persistent data")
    ∷ (next_var "DB_PATH" "/data/sender-report.db" "Path to the SQLite database file")
    ∷ (first_var "Lifetime & cleanup" "MAILBOX_TTL" "24h"
        "How long a mailbox accepts incoming mail")
    ∷ (next_var "DATA_RETENTION_TTL" "168h" "How long emails and reports stay retrievable (7 days)")
    ∷ (next_var "CLEANUP_INTERVAL" "30m" "How often the cleanup job runs")
    ∷ (first_var "Limits" "MAX_MESSAGE_BYTES" "2097152" "Maximum email size in bytes (2 MiB)")
    ∷ (next_var "MAX_ACTIVE_MAILBOXES_PER_IP" "20" "Max active mailboxes per IP address")
    ∷ (next_var "MAX_ACTIVE_MAILBOXES_GLOBAL" "2000" "Max active mailboxes globally")
    ∷ (next_var "WEB_RATE_LIMIT_PER_MIN" "60" "Web requests allowed per minute per IP")
    ∷ (next_var "WEB_BURST_PER_10_SEC" "20" "Web request burst per 10 s per IP")
    ∷ (next_var "SMTP_RATE_LIMIT_PER_HOUR" "200" "SMTP connections allowed per hour per IP")
    ∷ (next_var "SMTP_BURST_PER_MIN" "40" "SMTP burst per minute per IP")
    ∷ (next_var "PAYLOAD_RATE_LIMIT_PER_MIN" "30"
        "Encrypted reports one IP may fetch per minute; rechecks and simulator runs count separately against the same number (1 to 600)")
    ∷ (next_var "TRUSTED_PROXY_CIDRS" ""
        "Comma-separated CIDRs whose X-Forwarded-For header is trusted")
    ∷ []

abbrev pub feature_vars : List VarDef
feature_vars =
    (first_var "Optional checks" "ENABLE_RBL_CHECKS" "false"
      "Enable DNSBL/RBL IP reputation checks")
    ∷ (next_var "RBL_PROVIDERS"
        "zen.spamhaus.org,bl.spamcop.net,b.barracudacentral.org,psbl.surriel.com,dnsbl.dronebl.org,bl.blocklist.de"
        "Comma-separated list of RBL zones")
    ∷ (next_var "DNS_FALLBACK_RESOLVERS" "1.1.1.1,8.8.8.8,9.9.9.9"
        "External resolvers asked for a TXT record (DKIM key, SPF, DMARC) the local resolver cannot find; 'none' turns it off. They see the queried domain names")
    ∷ (next_var "DNS_FALLBACK_TIMEOUT" "2s"
        "How long each external resolver gets to answer (500ms to 10s)")
    ∷ (next_var "ENABLE_DOMAIN_AGE" "false"
        "Opt-in: domain registration age via RDAP (third-party rdap.org)")
    ∷ (next_var "ENABLE_DOMAIN_BLOCKLIST" "false"
        "Opt-in: sender/link domains against domain/URI blocklists (third-party)")
    ∷ (next_var "DOMAIN_BLOCKLIST_PROVIDERS" "dbl.spamhaus.org,multi.uribl.com"
        "Comma-separated domain/URI blocklist zones")
    ∷ (next_var "ENABLE_RSPAMD" "true"
        "Enable Rspamd integration (default: true — requires rspamd service)")
    ∷ (next_var "RSPAMD_URL" "http://rspamd:11334/checkv2" "Rspamd checkv2 endpoint")
    ∷ (next_var "RSPAMD_PASSWORD" ""
        "Rspamd controller password (leave empty when using secure_ip)")
    ∷ (next_var "ENABLE_SPAMASSASSIN" "false"
        "Enable SpamAssassin integration (optional, disabled by default)")
    ∷ (next_var "SPAMASSASSIN_WARN_RATIO" "0.9"
        "Share of the spam limit from which the SpamAssassin finding warns (0.9 = from 4.5 of 5.0; 0.1 to 1.0)")
    ∷ (next_var "SPAMASSASSIN_HOSTPORT" "spamd:783"
        "SpamAssassin spamd address (only used when ENABLE_SPAMASSASSIN=true)")
    ∷ (first_var "Alerting" "ALERT_WEBHOOK_URL" ""
        "Webhook URL for error/warning notifications (JSON POST)")
    ∷ (first_var "Privacy page" "PRIVACY_OPERATOR_NAME" ""
        "Legal name of the operator shown in the Datenschutzerklärung")
    ∷ (next_var "PRIVACY_OPERATOR_ADDRESS" "" "Postal address of the operator")
    ∷ (next_var "PRIVACY_OPERATOR_EMAIL" "" "Contact email of the operator")
    ∷ (next_var "PRIVACY_HIDE_TEMPLATE_NOTE" "false"
        "Set to true to hide the 'this is a template' notice once operator details are filled in")
    ∷ (first_var "Web interface" "UI_DEFAULT_THEME" "auto"
        "Display option for visitors who have not picked one: auto (follows the system), light, dark or werkbank")
    ∷ (first_var "Cookies" "COOKIE_SECURE" "auto"
        "Secure attribute of cookies: auto (HTTPS requests and an https:// PUBLIC_BASE_URL), always or never")
    ∷ (next_var "LANG_COOKIE_NAME" "sr_lang" "Cookie with the language picked in the switcher")
    ∷ (next_var "LANG_COOKIE_DAYS" "365" "Days the browser keeps the language choice (1 to 400)")
    ∷ (next_var "MAILBOX_COOKIE_NAME" "sr_mailbox"
        "Cookie with the mailbox created without JavaScript")
    ∷ (first_var "Env migration" "ENV_FILE" "/config/.env"
        "Path inside the container to the mounted .env file; enables automatic migration on startup")
    ∷ (first_var "Inbox placement testing" "IPT_RATE_LIMIT_PER_HOUR" "3"
        "Placement tests one IP may start per hour (1 to 60)")
    ∷ (next_var "IPT_TOKEN_LENGTH" "32"
        "Hexadecimal characters in the subject token of a new placement test (16 to 64); a test with a shorter token answers to it until it expires")
    ∷ (next_var "IPT_TEST_DURATION" "10m"
        "How long a placement test waits for its message, in whole minutes (1m to 1h)")
    ∷ (next_var "IPT_POLL_INTERVAL" "30s"
        "Pause between two IMAP lookups in one seed account (5s to 5m), shorter than IPT_TEST_DURATION")
    ∷ (next_var "IPT_EVENTS_INTERVAL" "5s"
        "How often the open placement dialog receives the state of its test (1s to 1m)")
    ∷ (next_var "IPT_SEARCH_MARGIN" "2m"
        "How far before the start of a test the IMAP search reaches back (0s to 1h)")
    ∷ (next_var "IPT_SPAM_FOLDERS" "Spam,Junk,[Gmail]/Spam,Bulk Mail,Bulk,Junk E-Mail"
        "Folders a placement test searches after INBOX, in this order (at most 20); none searches INBOX alone")
    ∷ []

unfoldable pub all_vars : List VarDef
all_vars = service_vars ++ feature_vars
