-- ===== src/Placement/Poll.antt =====
-- How one seed account is watched. The IMAP server may answer each lookup differently.
use sender_report.Base.{
  ℕ, zero, suc, Bool, false, ◌||◌, Option, none, some, List, [], ◌∷◌, ltb, if◌then◌else◌,
}
use sender_report.Text.{Bytes, codes, bytes_eq}
use sender_report.Seeds.{Account, SeedInfo}

-- The IMAP library and the server behind it, during one lookup. A search gives the count and the number
-- of sequence numbers of its reply.
pub record Imap : Type 1 where
  pub Client : Type 0
  pub split_host_port : Bytes → Option Bytes
  pub dial_tls : Bytes → Bytes → Option Client
  pub login : Client → Bytes → Bytes → Bool
  pub select_folder : Client → Bytes → Bool
  pub search_in : Client → Bytes → Bytes → ℕ → Option (ℕ × ℕ)

pub data PlaceStatus : Type 0 where
  in_inbox in_spam no_show : PlaceStatus

pub record ProviderResult : Type 0 where
  pub provider : Bytes
  pub address : Bytes
  pub place : PlaceStatus
  pub folder : Bytes
  pub checked_at : ℕ

abbrev pub inbox : Bytes
inbox = codes "INBOX"

unfoldable pub folder_status : Bytes → PlaceStatus
folder_status folder = if bytes_eq folder inbox then in_inbox else in_spam

abbrev pub any_match : Option (ℕ × ℕ) → Bool
any_match none = false
any_match (some (count, numbers)) = ltb 0 count || ltb 0 numbers

abbrev pub server_name : Option Bytes → Bytes → Bytes
server_name (some host) address = host
server_name none address = address

module _ (imap : Imap) where
  unfoldable pub search_folder : imap.Client → Bytes → Bytes → ℕ → Bool
  search_folder c folder subject since =
      if imap.select_folder c folder
      then any_match (imap.search_in c folder subject since)
      else false

  -- The first folder with a match, or no text.
  abbrev pub first_match : imap.Client → List Bytes → Bytes → ℕ → Bytes
  first_match c [] subject since = []
  first_match c (folder ∷ folders) subject since =
      let rest = first_match c folders subject since in
      if search_folder c folder subject since then folder else rest

  abbrev pub find_in : Option imap.Client → Account → List Bytes → Bytes → ℕ → Bytes
  find_in none acc folders subject since = []
  find_in (some c) acc folders subject since =
      if imap.login c acc.user acc.password then first_match c folders subject since else []

  unfoldable pub try_find : List Bytes → Account → Bytes → Bytes → ℕ → Bytes
  try_find spam_folders acc imap_host subject since =
      find_in (imap.dial_tls imap_host (server_name (imap.split_host_port imap_host) imap_host)) acc
        (inbox ∷ spam_folders) subject since

-- The lookups from one on, at most a number of them, until one finds a folder.
abbrev pub look_up : (ℕ → Bytes) → ℕ → ℕ → Bytes
look_up tries i zero = []
look_up tries i (suc n) =
    let rest = look_up tries (suc i) n in if bytes_eq (tries i) [] then rest else tries i

abbrev pub provider_result : SeedInfo → ℕ → Bytes → ProviderResult
provider_result info at folder = record {
  provider = info.provider;
  address = info.address;
  place = if bytes_eq folder [] then no_show else folder_status folder;
  folder = folder;
  checked_at = at;
}

-- One account: what its lookups meet, the ticks that are taken before the deadline is, and the time of
-- its result. The first lookup waits for no tick.
pub record Watch : Type 1 where
  pub info : SeedInfo
  pub account : Account
  pub imap_host : Bytes
  pub imap : ℕ → Imap
  pub ticks : ℕ
  pub checked_at : ℕ

unfoldable pub tries_of : List Bytes → Bytes → ℕ → Watch → ℕ → Bytes
tries_of spam_folders subject since w i =
    try_find (w.imap i) spam_folders w.account w.imap_host subject since

unfoldable pub poll_one : List Bytes → Bytes → ℕ → Watch → ProviderResult
poll_one spam_folders subject since w =
    provider_result w.info w.checked_at
      (look_up (tries_of spam_folders subject since w) 0 (suc w.ticks))
