-- ===== src/Lib.antt =====
-- A verification library of the compliance core of Vigia: the code that decides whether a contact
-- with a debtor may happen, and the ledger that keeps the evidence of it.
--
-- The parts and how they interact
--   The policy detectors (internal/detection) each judge one interaction. The outbound decider
--   (internal/outbound/decider.go) runs four of them and a semantic judge (internal/judge) on a
--   proposed message, under a resolved context and policy bundle, and hands stopped enforcement
--   decisions to a recorder. The campaign preflight (internal/outbound/campaign_preflight.go) expands
--   a campaign to proposals and asks the decider for each as a dry run. The evaluation service
--   (internal/evaluation) runs detectors and judges on a past interaction and stores the outcome.
--   Complaint cases (internal/orchestrator/state.go) move between states in transactions
--   (internal/postgres/complaint_store.go) that append to the evidence ledger (internal/ledger); a
--   poll (internal/orchestrator/jobs.go) finds the transitions that are due and hands on a job for
--   each, and a monthly job (internal/orchestrator/report.go) asks for the reports on the cases.
--   Ranges of the ledger are summarised by timestamped Merkle checkpoints
--   (internal/postgres/merkle_checkpoint.go). An agent step (internal/harness) asks a permission gate
--   before it executes a tool; internal/harness/outboundgate puts the outbound decider there.
--
-- Files
--   Prelude      shared names, Boolean tests, lists on native numbers, loops over a slice
--   Time         instants, locations, the calendar of package time
--   Core, Judge  internal/core/types.go; the types of internal/judge
--   Detection    internal/detection: one module with `evaluate` for each detector; Hours, Tables and
--                Ages hold the theorems
--   Outbound     types.go; Engine, Rules and Decider are decider.go, split where its steps begin:
--                `decide` is Decide, `verdict` to `check_rules` its checks in order, `finalize` its
--                closure of that name; Context is proposal_context.go; Template, Campaign and Preflight
--                are campaign_preflight.go (Metadata is Decision.Metadata; `run` is Run,
--                `validate_campaign` validateCampaign). RulesHold, Clearance, Recording and Briefing
--                hold the theorems
--   Ledger       ledger.go in Record (`hash_of` is Hash, `canonical_body` canonicalBody), verify.go in
--                Chain (`verify_chain` is VerifyChain); Encoding, Json and Digest are the text, the
--                JSON strings and the hash that they use; Canonical, Hashing, Chain/Intact and
--                Chain/Binding hold the theorems
--                Inputs is ComputeInputsDigest, Package package.go (the field `Record` is `proof`)
--                Merkle and Checkpoint are checkpoint.go (`build_merkle_checkpoint` is
--                BuildMerkleCheckpoint), Checkpointer is merkle_checkpoint.go; their children hold the
--                theorems
--   Evaluation   service.go: Folding is runDetectorsAndJudges, Run the two entry points; Outcomes and
--                Replay hold the theorems
--   Complaints   state.go; Tables and Store are ApplyTransition of complaint_store.go over the rows of
--                one tenant, Cases its creations and listings, with the queries of internal/db, Jobs is
--                internal/orchestrator/jobs.go (`poll` and `work_transition` are the workers);
--                Lifecycle, Head, Trail, Resolution, Creation, Polling and Jobs/Working hold the
--                theorems
--   Calendar     internal/orchestrator/calendar.go; Counting holds the theorem
--   Harness      internal/harness: the types, Run is runtime.go, Gate is outboundgate; WellFormed,
--                Permitted and Guarded hold the theorems
--   Reports      internal/orchestrator/report.go (`work` is the worker); Months and Runs hold the
--                theorems
--   Samples      concrete inputs
--
-- Choices
--   Go's int64 sequence numbers are numbers without a bound. An instant is a number of nanoseconds
--   since year 1; Go's durations of up to 292 years are not checked for overflow. A float64 confidence
--   is a number of units of 2 ^ -1074, its exact grid, and is not negative. A panic of Hash is `none`.
--   A Go string is the list of its code points, so only valid UTF-8 is modelled: json.Marshal writes
--   each invalid byte as U+FFFD, and two strings that differ only there have one canonical text. Text that
--   comes from PostgreSQL or from json.Unmarshal is valid.
--   Loops over a slice are structural. The loop of AddBusinessDays is on fuel: one week for each day
--   asked and for each holiday, which is shown to be enough for a UTC time. The loop of RunStep is on
--   fuel of one more than the attempts of its budget, merkleRoot on the number of its nodes, and the
--   doubling in largestPowerOfTwoLessThan on its argument; each is shown to be enough. The interfaces
--   that a harness runtime is given are options where the code tests them for nil, and its budgets are
--   not negative, since a negative limit acts as 0.
--
-- Parameters
--   The zone database, SHA-256 (a digest of 32 bytes), the judge, the context and bundle resolvers, the
--   recorder, the enqueuer of jobs, the report store, the evaluation store and its lookups, the parsing
--   of UUIDs and of RFC 3339 and canonical times, the clocks, the ids that the database generates, the
--   timestamp authority, and the models, tools, validators and other gates of a harness runtime.
--
-- Not modelled
--   Logging, contexts and their cancellation, failing queries (a transaction rolls back), the HTTP and
--   MCP servers, the laboratory tools of the harness, the ledger job and the CSV export of
--   internal/orchestrator, ingestion, transcription, configuration and the commands.
pub mod Prelude
pub mod Time
pub mod Core
pub mod Judge
pub mod Detection
pub mod Outbound
pub mod Ledger
pub mod Evaluation
pub mod Complaints
pub mod Calendar
pub mod Harness
pub mod Reports
pub mod Samples
