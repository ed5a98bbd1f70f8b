-- ===== src/Lib.antt =====
-- Verification of sender-report, a service that receives test mails over SMTP, checks how they
-- would be judged by receivers (SPF, DKIM, DMARC, blocklists, content) and shows a report.
--
-- A mail comes in over an SMTP connection (internal/smtp/server.go), which first asks two rate
-- limiters (internal/ratelimit/ratelimit.go). For each accepted recipient the server hands the
-- mail to a handler, which evaluates SPF, DKIM and DMARC (cmd/sender-report/auth.go), writes the
-- results into headers, analyses the message (internal/analyzer) and stores the report. The web
-- server (internal/web) shows it.
--
-- Base holds what the modules share: tests on numbers, lists over the native numbers, predicates
-- on lists, tables. Text holds Go strings as byte lists, with the functions of the packages
-- strings and strconv that the program calls. Case and white space are those of ASCII: the names,
-- records and commands that the program compares are ASCII. The replies of the SMTP server that
-- have umlauts are lists of code points.
--
-- RateLimit models internal/ratelimit/ratelimit.go: New, Allow and RetryAfter are new, allow and
-- retry_after, over explicit times in nanoseconds. A call is one step, as the mutex makes it. A
-- limit of zero or less is zero. RateLimit/Window and RateLimit/Retry hold the proofs.
--
-- Smtp models one connection of internal/smtp/server.go. Smtp/Wire has ReadString by lines,
-- extractSMTPPath and readData (read_data); Smtp/Session the cases of the switch in handleConn,
-- one function each, joined in command; Smtp/Serve the loop (serve) and handleConn (handle_conn)
-- with the rate limits. The events of a connection are the lines that are written, the calls of
-- HandleMail and of OnRateLimited. A read error and the deadline are the end of the input. What
-- the client sends over TLS is a second input, which is there if the handshake succeeds. The
-- answers of the recipient validator do not change during a connection. The loop takes one unit
-- of fuel a line; the fuel is one more than all lines of both inputs. The listener and its
-- goroutines are not modelled.
--
-- Dns has the replies of DNS questions and classifyDNSError of internal/analyzer/dns.go. The
-- resolvers are a parameter: functions from names to replies, which do not change during one
-- evaluation.
--
-- Spf models the SPF evaluation of cmd/sender-report/auth.go, lines 298 to 696. Spf/Address has
-- net.IP as a list of 0, 4 or 16 bytes and ipMatchesWithOptionalCIDR; Spf/Parse the tokens,
-- mechanisms and names; Spf/Mechanism matchSPFMechanism and its lookups; Spf/Check
-- lookupSPFRecord, checkSPFDomain and evaluateSPF. The result strings are a data type. A negative
-- prefix length is none. The set seen and the counter lookups, which the code shares by
-- reference, are the record Evaluation, passed from step to step. The depth is turned into the
-- levels that are left, 11 at depth 0, so that the recursion is structural. net.ParseIP is a
-- parameter, a function from text to address.
--
-- Auth models the rest of cmd/sender-report/auth.go. Auth/Dkim has evaluateDKIM on the list that
-- the library's verification gives, Auth/Dmarc evaluateDMARC and domainAligned on the record that
-- the library looks up, Auth/Headers the header lines and prependHeaders, Auth/Strip
-- stripReceiverHeaders, and Auth/Enrich evaluateAuthResults, enrichWithReceiverAuthHeaders and
-- reverifyReceiverAuth. The libraries for signatures, policies and addresses are parameters,
-- records of functions, and the text of the time is one too. In stripReceiverHeaders the list of
-- blocks, which the code lengthens at its end, is the block that is being read and the blocks
-- behind it.
--
-- Fallback models internal/dnsfallback/dnsfallback.go: parse_resolvers, configure, hosts and
-- lookup_txt_source are ParseResolvers, Configure, Hosts and LookupTXTSource. The messages of
-- errors are the constructors of ListError. The functions of the package net, the replies, and
-- whether the context has ended are parameters.
--
-- Score models the scoring of internal/analyzer/analyzer.go: score_for, enrich_delta,
-- clamp_score, essentials_all_pass, compute_score and assign_label are scoreFor, the share in
-- enrichCheckResult, clampScore, essentialsAllPass, ComputeScore and assignLabel. Points are
-- hundredths in natural numbers, a share is a gain or a loss, and sums are exact where the code
-- adds float64 numbers.
--
-- Seeds models internal/ipt/seeds.go: validate, provider_names, filter_providers and pick are
-- Validate, ProviderNames, Filter and Pick. The two slices that Pick returns are one list of
-- pairs, the random numbers a draw for each place in the list of providers, and a panic of the
-- random number generator is none.
--
-- Store models internal/store/store.go over the tables of internal/db/db.go. Store/Tables has the
-- rows, the cascades of deletions and last_insert_rowid; Store/Mailboxes, Store/Messages and
-- Store/Placements the methods, one function each under the method's name, with the time as an
-- argument where the code asks the clock; Store/Operations a run of any of them. Times are
-- numbers, a score is in hundredths of a point, and text that the code marshals is kept as bytes.
-- Store/Sound states the keys, references and counters; Store/References, Store/Keys,
-- Store/Unique and Store/Counts hold the proofs for them, Store/Rows their lemmas on rows,
-- Store/Retention and Store/Reports those on Cleanup and SaveReport. Rows of one time are listed
-- in the order that an insertion sort gives.
--
-- Inbound models the mail handler of cmd/sender-report/main.go: Inbound/Recipients has
-- isAllowedRecipient, matchesConfiguredDomain and the reading of header fields, Inbound/Payload
-- stripReportForStorage, buildEncryptedPayload and what is sealed, Inbound/Handle processInbound.
-- The analyzer, JSON, hex, base64, the word decoder, the text of a time and the seal are fields
-- of Engine. Inbound/Rows says what is stored, field by field, and Inbound/Delivery and
-- Inbound/Stored hold the proofs. Metrics, logs and alerts are left out.
--
-- Sealed models internal/sealedbox/sealedbox.go: seal, seal_with_ephemeral and open_blob are
-- Seal, sealWithEphemeral and Open, with derive_key, identifier and the key pairs; the record
-- Crypto has the functions of the libraries, HasLaws what they promise. Sealed/Layout and
-- Sealed/Opening hold the proofs, Inbound/Owner joins the box and the mail that is stored.
--
-- Web models parts of internal/web: Web/Paths has cleanRequestPath, httpsExempt, localReturnPath
-- and the language prefixes of seo.go (set_lang is the redirect of setLang), Web/Proxy clientIP,
-- requestScheme, requestHost and what they read of headers, Web/Checks sortChecks,
-- groupReportChecks and waitText, Web/Language the choice of a language in internal/i18n/i18n.go.
-- The packages net and net/url are parameters, and so are the trusted networks. The sort of the
-- package sort is an insertion sort, which like it is stable. Web/Local, Web/Trusted, Web/Sorted
-- and Web/Shown hold the proofs.
--
-- Tasks models runChecksConcurrently of internal/analyzer/analyzer.go: a goroutine is a job that
-- starts, stores its results and gives its place in the semaphore back, in steps that interleave
-- in any order (Step, Reach); a panic of a check becomes errorCheck. The checks themselves are
-- values that return or panic, and each of them ends. Tasks/Invariant, Tasks/Progress and
-- Tasks/Schedules hold the proofs.
--
-- Policy models the reading of policies in internal/analyzer: Policy/Lookup has lookupDMARCRecord
-- with dmarcRecordsAt and lookupTXT of dns.go and registrableDomain, relaxedAligned and
-- extractTagValue of analyzer.go; Policy/Verdicts the alignment checks and dmarcPolicyCheck, with
-- the texts left out; Policy/MailType detectMailType. The conversion of names, the resolvers and
-- the list of public suffixes are fields of Names. Policy/Answers says what DNS answers,
-- Policy/Absent holds the proofs.
--
-- Migrate models internal/envmigrate/migrate.go on the lines of a file: key_of and is_set are
-- what parseEnvFile collects, migrate_lines what MigrateFile adds, Migrate/Table the table All
-- with the constants of internal/config/config.go in place. Letters outside ASCII stand as one
-- number. Migrate/Keys, Migrate/Stable and Migrate/Listed hold the proofs.
--
-- Create models createMailbox and generateMailboxAddress of internal/web/server.go. A handler is
-- a program (Create/Program): a call of the store and what follows on its answer, so that exec
-- makes one call and the calls of several requests may interleave. Create/Handler has the handler
-- (handle_create_mailbox), with its eight tries of a random address, Create/Traffic the states
-- that requests and other operations reach, each call a step and the clock not going back.
-- Create/Measure counts what is active, Create/Credit shows that a handler creates a mailbox only
-- after both counts were below their limits, Create/Effect what one call does, Create/Pool sums
-- over the requests, and Create/Limits joins them.
--
-- Placement models the placement tests. Placement/Poll has pollOne, tryFind and searchFolder of
-- internal/ipt/poller.go, where the IMAP library is a parameter that may answer each lookup
-- differently and the ticks before the deadline are a number; Placement/Start iptStartAPI,
-- Placement/Access newPlacementToken, placementTokenAccepted, placementTestFor and iptResultAPI
-- of internal/web/server.go; Placement/Life the life of a test: its start, the results, which the
-- collector writes as they arrive, in any order, and other operations of the store.
-- Placement/Rows and Placement/Found have lemmas on rows, Placement/Begun what a start has done,
-- Placement/Owned and Placement/Verdict the theorems.
--
-- Recheck models recheckPersistAPI and payloadAPI of internal/web/server.go. Recheck/Reference
-- has messageReference and the choice of a message by it, Recheck/Persist the handler that saves
-- a report again (recheck_persist), with the score of Score and the two updates of Store,
-- Recheck/Payload the handler that gives a sealed payload out (payload_api). A status that the
-- program does not know is one that the score does not read. Recheck/Listed, Recheck/Frame,
-- Recheck/Confined and Recheck/Given hold the proofs.
--
-- Config models checks of internal/config/config.go. Config/Paths has splitCSV, splitPathList,
-- exemptPathPattern as a function of the bytes, hasDotSegment and checkHTTPSExemptPaths;
-- Config/Limits the checks that Load makes after it, up to the lifetimes (check_limits), with
-- checkRequestLimits, checkIPTTiming and checkIPTSpamFolders, over the settings that they read. A
-- setting is an integer, a duration its nanoseconds, the name of a folder its code points.
-- Config/Exempt holds the proof on the exempt paths, with the test of the web server,
-- Config/Bounded and Config/Accepted those on the limits.
--
-- Not modelled: most checks of the analyzer, most handlers and the pages of the web server, the
-- reading of the environment and the smaller packages. Opening the database, the PDF layout, the
-- TLS certificate and the front end are calls of libraries or not Go.
mod Base
pub mod Text
pub mod RateLimit
pub mod Smtp
pub mod Dns
pub mod Spf
pub mod Auth
pub mod Config
pub mod Create
pub mod Fallback
pub mod Score
pub mod Tasks
pub mod Policy
pub mod Placement
pub mod Migrate
pub mod Seeds
pub mod Store
pub mod Sealed
pub mod Recheck
pub mod Inbound
pub mod Web
