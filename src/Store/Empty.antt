-- ===== src/Store/Empty.antt =====
-- The database after its first start, by the schema of internal/db/db.go: no rows, and the four counters.
use sender_report.Base.{[], arith}
use sender_report.Store.Tables.{Db}
use sender_report.Store.Sound.{IsSound}

abbrev pub empty : Db
empty = record {
  mailboxes = [];
  messages = [];
  reports = [];
  tests = [];
  counters = record {
    mailboxes_created = 0;
    messages_received = 0;
    reports_generated = 0;
    score_sum = 0;
  };
  next_mailbox = 1;
  next_message = 1;
  next_report = 1;
  next_test = 1;
  last_rowid = 4;
}

-- The database after its first start is sound.
pub empty-IsSound : IsSound empty
empty-IsSound = (
  record { messages_in = tt; reports_in = tt; tests_in = tt },
  record {
    mailbox_keys = (tt, tt, tt, tt);
    message_keys = (tt, tt);
    report_keys = (tt, tt, tt);
    test_keys = tt;
  },
  record {
    mailboxes_counted = omega arith;
    messages_counted = omega arith;
    reports_counted = omega arith;
  },
)
