-- ===== src/Lib.antt =====
-- Verification of the consensus core of the witness subnet. All paths are those of the repository.
--
-- Validators publish results as commitments on the chain. The ledger replays the finalized blocks:
-- each block's commitments are admitted as submissions or as uses of a candidate, a window closes
-- at the first block of the next one, and its decision names the king who takes the weight. A
-- validator's queue of triggers says which submission it evaluates next, and a daily budget bounds
-- what it pays for judging. The calls of the judging API go through that budget and a cache of
-- answers. A download budget bounds the time that it gives to fetching a model.
--
-- Files and code:
--   Protocol/Codec*     encode_bytes, decode_bytes, hexadecimal text (witness/benchmark/protocol.py)
--   Protocol/Record*    class Result: checks, commitment, parser (protocol.py)
--   Protocol/Snapshot   the finalized snapshot, commitment rows and submissions (dicts in protocol.py)
--   Protocol/Weights*   weight_vector (protocol.py)
--   Protocol/Decide*    decide (protocol.py): Tallying and Aggregation are its two loops, the file
--                       itself the choice
--   Submission*         Submission and parse_submission (witness/benchmark/submission.py)
--   Triggers*           class Triggers (witness/benchmark/triggers.py); Triggers/Fair is the order of
--                       pending()
--   Ledger/Schedule*    validate_upgrade, policy_for_window (witness/benchmark/ledger.py)
--   Ledger/State        the tables, and the queries on them (ledger.py)
--   Ledger/Open         _reset_admissions and _open (ledger.py)
--   Ledger/Turn         the close of a window in ingest (ledger.py)
--   Ledger/Ingest       ingest (ledger.py)
--   Ledger/Log, Grows, Atomic   proofs about ingest
--   Budget*             class DailyBudget: nanos, the constructor, reserve, settle, totals
--                       (witness/budget.py)
--   Json*, Events*      canonical_bytes, content_hash (witness/events.py)
--   Storage*            write_private, store_immutable (witness/storage.py)
--   Api                 RATES, PROVIDERS, the constructor and identity of class ApiText
--                       (witness/providers.py)
--   Api/Request, Answer   the request with its digest and price; how an answer is read
--   Api/World           the cache, the table of calls, the budget and the network
--   Api/Checks, Send, Finish, Call   _call in its order, and __call__
--   Api/Dispatch, After, Own, Once, Money, Settled, Cached   proofs about _call
--   Download*           class DownloadBudget (witness/benchmark/download_budget.py)
--   Errors              the exceptions
--   Base*               shared types: dictionaries, sorting, texts, outcomes, methods, transactions
--   */Tests             examples
--
-- State and errors. An SQL table is a list of rows or a dictionary by its primary key, in the order
-- of insertion; a Python dict is an association list. A method takes the state and returns its
-- outcome beside the state that it leaves, so a write before a raise is seen; `transaction` is
-- BEGIN, the body and COMMIT, or ROLLBACK. Threads take the same lock around each method, so a run
-- is a sequence of calls.
--
-- Numbers. Blocks, uids, turns and stakes are natural numbers. The fractions of `decide` are exact in
-- the source and are pairs of naturals over a denominator here, compared by cross-multiplication;
-- the floats that it reports beside them are not modelled. The fractions of a weight are whole
-- tenths. Dollars are exact nano-dollars, where the source multiplies floats. Fixed-width fields of
-- the struct keep their `256 ^ n`.
--
-- Fuel. `rounds` in Triggers/Fair runs on fuel: each round of a queue without empty groups takes an
-- item, so as many rounds as items are wanted are enough.
--
-- Disk. A crash may leave any version of a directory since it was last synchronised, and anything
-- in a file that was not; a call that raises leaves the effects of those before it.
--
-- Network. What each post meets is an argument: an answer, a failure to connect, another transport
-- error or any other exception. So are the clock's readings, the environment variables and fresh
-- ids. `json.loads` of an answer's text is a parameter.
--
-- Parameters. `content_hash` takes SHA-256 as an argument, a function of bytes. `challenge_id` is a
-- SHA-256 hash of canonical JSON; it is any function of the hotkey and the manifest id. The clock, the day and fresh call ids are arguments.
--
-- Not modelled: networking, containers, GPUs, media and model evaluation; floating-point scoring;
-- JSON floats; the times in the records of calls; `sha256_file`; permissions and parent directories;
-- SQLite below the statements; `policy_identity`, which hashes files; `weights_match` and `quantize`, which compute with floats; `_migrate_media_policy`, the one-time migration of a
-- ledger; the tests of the shape of JSON in `validate_upgrade`.
pub mod Base
pub mod Errors
pub mod Protocol
pub mod Submission
pub mod Triggers
pub mod Ledger
pub mod Budget
pub mod Download
pub mod Json
pub mod Events
pub mod Storage
pub mod Api
