-- ===== src/Lib.antt =====
-- The JavaScript side of Raiz: the prover shim of the wallet and the scripts around it.
--
-- The program. wallet/app/src/main/assets/prover/raiz-shim.js runs in the wallet's WebView. It proves
-- confidential-token operations (RaizProver), builds unsigned calls of the token's wrapper contract
-- (RaizChain), and computes a savings goal's total from public events with the goal's published view
-- key (goalTotal), checking it against the commitments on the chain. The scripts do the same from the
-- command line (scripts/verify-goal-total/verify-goal-total.mjs, scripts/ct-flow/audit.mjs), over the
-- retries of scripts/receipt/_vendor.mjs and scripts/ct-flow/_shared.mjs, which also keeps the
-- deployment's secrets in a file.
--
-- Where it is modelled.
--   Prelude: numbers, strings as lists of UTF-16 code units, errors (one constructor of Error for each
--     throw), and Io, a call over the world outside that returns or throws.
--   Values: JavaScript values that reach the code. Vendor: the vendor SDK, the Stellar SDK, the proof
--     libraries, the network and the engine, a record of operations without laws; a theorem that
--     needs a law takes it as a hypothesis (IsHomomorphic of Shim.Goal.Openings: commitments add up).
--   Shim.Codec: asBig, asPoint, asStrkey, parseParams, reqStr, dec.
--   Shim.Prover.Output: serialize, toBase64. Shim.Prover.Engine: THREADS, the caches, execAndProve.
--   Shim.Prover.Generate: buildWitness, generate, selftest.
--   Shim.Builders, Shim.Builders.Proving: chainClient, buildUnsignedInvoke, syncState, the prepare
--     functions and status.
--   Shim.Events: xdrDataMap, parseRawEvent, fetchEventsFromUrl.
--   Shim.Goal: goalTotal. Query reads the parameters, Checks compares and checks, Ledger is the
--     replay, Total puts the steps together; Openings states what the wrapper contract does to the
--     goal's two commitments, as a relation on events, independently of the replay.
--   Scripts.VerifyGoal and Scripts.Format: verify-goal-total.mjs. Scripts.Audit: audit.mjs,
--     its Report the whole run. Scripts.Retry: the three retry functions. Scripts.EnvFile: loadEnvDeploy and
--     saveEnvDeploy. Scripts.Secrets: ensureKeypair and ensureScalar. Scripts.Receipt:
--     make-receipt.mjs and verify-receipt.mjs of scripts/receipt; the disclosure protocol is a second
--     record of vendor operations, Disclosure, whose completeness is the hypothesis IsComplete of
--     Scripts.Receipt.Protocol, next to what the chain has to serve still.
--   Scripts.CtFlow: the shared helpers of scripts/ct-flow, Flow its flow.mjs (RunLog its
--     log, Steps what it does with the accounts) and Deploy its deploy.mjs (Contracts what it installs), over a machine
--     of the world outside and the three files on the disk. Scripts.Calls: the calls in sequence that they
--     are written with, and rules for what a call ensures, keeps and leads to.
--   Scripts.Bench: scripts/prover-bench. Inputs are the synthetic inputs, Page the browser page, Node the run in
--     Node.
--   Scripts.Server: the handler of scripts/prover-bench/serve.mjs, and Web the one of web/serve.mjs, on POSIX paths:
--     Scripts.Paths has the operations of node:path, Scripts.ContentType the type of a file.
--   Tools: the wallet's tools, wallet/tools. SignFixture is gen-sign-fixture.mjs, over what the SDK answers for its one
--     transaction; ProverAssets is build-prover-assets.mjs, on a directory as a tree of files (Files has the calls of
--     node:fs that it makes), over the vendor's tree and the bundler.
--   Tests: runs on a small vendor.
--
-- How. An asynchronous function is a state-passing function over the vendor's World, one call at a
-- time; calls that overlap are not modelled. The shim's own state, its caches, is a record beside the
-- world. Loops over lists are structural; the loop over pages of events has 501 rounds of fuel, since
-- the source gives up after more than 500 pages; retries count their tries. Bigints are signed
-- integers without bounds. Times (performance.now) and what is printed on the way are left out.
--
-- Not modelled: the Kotlin and Rust code, the web page, prover-bench's build
-- (one call of esbuild) and its bundle in scripts/prover-bench/dist, smoke-chain.mjs and visibility.mjs.
pub mod Prelude
pub mod Values
pub mod Vendor
pub mod Shim
pub mod Scripts
pub mod Tools
pub mod Web
pub mod Tests
