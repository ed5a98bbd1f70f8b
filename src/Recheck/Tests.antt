-- ===== src/Recheck/Tests.antt =====
-- A mailbox with a sealed message, whose report is checked again.
use sender_report.Base.{◌≡◌, refl, ◌⊎◌, none, some, List, [], ◌∷◌}
use sender_report.Text.{Bytes, codes, cut, trim_prefix, trim_space, decimal}
use sender_report.Score.{
  excellent, loss, compute_score, score, clamp_score, essentials_all_pass, assign_label,
}
use sender_report.Store.Tables.{Message, Report, Db}
use sender_report.Store.Sound.{IsSound}
use sender_report.Store.Empty.{empty, empty-IsSound}
use sender_report.Store.Mailboxes.{create_mailbox, get_mailbox_by_token}
use sender_report.Store.Messages.{
  save_message, save_report, list_messages_by_mailbox, list_messages_with_reports,
  update_message_payload_enc, update_report_score_checks, get_report_by_message_id,
}
use sender_report.Store.Operations.{Request, create, receive, report, run, run_all}
use sender_report.Store.Counts.{run_all-IsSound}
use sender_report.Recheck.Reference.{
  Codecs, message_reference, select_message_with_report, is_encrypted,
}
use sender_report.Recheck.Persist.{
  PersistBody, PersistRequest, saved, message_not_found, path_parts, ask_limiter, recheck_persist,
}
use sender_report.Recheck.Payload.{PayloadRequest, payload, payload_api}
use sender_report.Recheck.Confined.{IsNoChange, IsConfined, recheck_persist-IsSafe}
use sender_report.Recheck.Given.{IsOwn, payload_api-IsOwn}

-- Hashes and texts are what they encode.
abbrev plain : Codecs
plain = record { sha256 = λ s. s; encode_hex = λ s. s; decode_base64 = λ s. some s }

abbrev mail : Message
mail = record {
  id = 0;
  mailbox_id = 1;
  smtp_from = [];
  rcpt_to = codes "t@host.test";
  remote_ip = [];
  helo = [];
  received_at = 105;
  raw_source = [];
  header_block = [];
  subject = [];
  size_bytes = 0;
  payload_enc = codes "MPE1 old";
}

abbrev first_report : Report
first_report = record {
  id = 0;
  message_id = 1;
  created_at = 106;
  score = 400;
  score_label = [];
  checks = [];
  warnings = [];
  suggestions = [];
  raw_headers = [];
  links = [];
  spam_signals = [];
}

abbrev day : List Request
day =
    create 100 (record {
      token = codes "t";
      address = codes "t@host.test";
      public_key = codes "key";
      ip = [];
      ttl = 10;
    })
    ∷ receive 105 mail
    ∷ report 106 first_report
    ∷ []

abbrev evening : Db
evening = run_all day empty

evening-IsSound : IsSound evening
evening-IsSound = run_all-IsSound day empty empty-IsSound

-- One check that the server has never made.
abbrev sent : PersistRequest
sent = record {
  method = codes "POST";
  ip = [];
  path = codes "/api/recheck-persist/t/t:1";
  body = some (record {
    payload_enc = codes "MPE1 new";
    checks = record { id = codes "x"; name = []; status = codes "pass"; score_delta = loss 0 } ∷ [];
  });
}

saves : (recheck_persist plain (λ cs. []) (λ l. []) 130 sent none evening).0 ≡ saved 1000 excellent
unfolding recheck_persist run_all run create_mailbox save_message save_report get_mailbox_by_token
    list_messages_by_mailbox update_message_payload_enc update_report_score_checks
    get_report_by_message_id message_reference is_encrypted ask_limiter compute_score score
    clamp_score essentials_all_pass assign_label decimal
saves = refl

other_reference :
    (recheck_persist plain
      (λ cs. [])
      (λ l. [])
      130
      (record sent { path = codes "/api/recheck-persist/t/t:2" })
      none
      evening).0
    ≡ message_not_found
unfolding recheck_persist run_all run create_mailbox save_message save_report get_mailbox_by_token
    list_messages_by_mailbox update_message_payload_enc update_report_score_checks
    get_report_by_message_id message_reference is_encrypted ask_limiter compute_score score
    clamp_score essentials_all_pass assign_label decimal
other_reference = refl

recheck_persist-IsSafe_example :
    let (res, l', d') = recheck_persist plain (λ cs. []) (λ l. []) 130 sent none evening in
    IsNoChange plain (λ cs. []) (λ l. []) (res, d') evening
    ⊎ ((token : Bytes) × (ref : Bytes) × (b : PersistBody) × (path_parts sent.path
          ≡ some (token, ref))
        × (sent.body ≡ some b)
        × IsConfined plain (λ cs. []) (λ l. []) token ref b res evening d')
recheck_persist-IsSafe_example =
    recheck_persist-IsSafe plain (λ cs. []) (λ l. []) 130 sent none evening evening-IsSound

abbrev asked : PayloadRequest
asked = record { method = codes "GET"; ip = []; path = codes "/api/payload/t/t:1" }

gives : (payload_api plain 130 asked none evening).0 ≡ payload (codes "MPE1 old") (codes "t")
unfolding payload_api run_all run create_mailbox save_message save_report get_mailbox_by_token
    list_messages_with_reports get_report_by_message_id message_reference select_message_with_report
    is_encrypted ask_limiter trim_space decimal
gives = refl

payload_api-IsOwn_example :
    (ref : Bytes) × (cut (codes "/") (trim_prefix (codes "/api/payload/") asked.path)
      ≡ some (codes "t", ref))
    × IsOwn plain (codes "t") ref (codes "MPE1 old") evening
payload_api-IsOwn_example =
    payload_api-IsOwn plain evening evening-IsSound 130 asked none (codes "t") (codes "MPE1 old")
      gives
