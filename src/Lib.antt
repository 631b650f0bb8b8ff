-- ===== src/Lib.antt =====
-- The HTN stratum bridge: miners speak the stratum protocol to it, it asks a Hoosat node for block
-- templates, hands them out as jobs, judges the shares that come back, submits blocks to the node,
-- and keeps a table of the blocks found and their rewards. This library models its core and proves
-- what makes it correct.
--
-- How the parts work together: a miner connects and is given an extranonce (Clients), and authorizes
-- with its wallet and the name of a worker (Stratum), over a connection whose lines the server's
-- handlers answer (Server). For each new block the bridge asks the API for a template for each
-- miner (Api), which decides by a keyed hash whether the template pays the bridge instead
-- (BridgeFee), over a key that holds the sanitized worker name (Worker), and may answer from a
-- cache. The template becomes a job in the miner's ring of jobs (Mining). A submitted share is read,
-- looked up in the ring, judged, counted, and, if it is a block, handed to the node and recorded
-- (Share) in the table of blocks (Db). Later its reward is looked up on the chain and booked
-- (Booking), by what the coinbase of the accepting block pays (Rewards), from which the rewards
-- page also splits a payment among workers.
--
-- Files, and the code they model:
--   Prelude        Boolean tests, lists, Go strings as bytes, maps as association lists, 64-bit
--                  integers, encodings, strings.TrimSpace, strconv.ParseInt and ParseUint
--   Rpc            the fields of the node's messages (package appmessage of HTND, not in the
--                  repository) that the bridge reads
--   Mining         src/htnstratum/mining_state.go: AddJob is add_job, GetJob get_job, IsFeeJob
--                  is_fee_job, RemoveJob remove_job, ClearJobs clear_jobs; MiningState a record
--   Worker         sanitizeWorkerID of src/htnstratum/htnapi.go
--   BridgeFee      src/bridgefee/bridgefee.go: ShouldReplaceGBT is should_replace_gbt
--   Api            src/htnstratum/htnapi.go: GetBlockTemplate is get_block_template, made of select
--                  (who is paid) and fetch (node or cache); invalidateGBTCache, a cleanup tick;
--                  waitForSync, startBlockTemplateListener (Api.Listener)
--   Db             src/htnstratum/db.go: a function for each statement, on a list of rows
--   Rewards        src/htnstratum/miner_rewards.go: coinbaseSumToAddress, processPayingBlock,
--                  the chain blocks (Rewards.Chain), the blocks mined here (Rewards.Mined),
--                  extractWorkerFromPayload (Rewards.Payload)
--   Booking        fetchAndUpdateReward of src/htnstratum/share_handler.go
--   Stratum        src/gostratum: CleanWallet, HandleAuthorize (Stratum.Authorize), the writing
--                  of messages and the end of a connection (Stratum.Connection), and the loop that
--                  reads a connection: spawnClientListener is listen, readFromConnection
--                  read_from_connection, HandleEvent handle_event (Stratum.Listen)
--   Clients        src/htnstratum/client_handler.go: OnConnect, OnDisconnect, the extranonces; what
--                  NewBlockAvailable does for one client (Clients.Job)
--   Hasher         src/htnstratum/hasher.go: SerializeBlockHeader, GenerateJobHeader and
--                  GenerateLargeJobParams
--   Pow            src/pow: the generator (Pow.Xoshiro), the functions on floats (Pow.Floats), the
--                  matrices (Pow.Matrix), their products (Pow.Multiply), NewState, the value of a
--                  proof of work and the checks (Pow.State)
--   Share          src/htnstratum/share_handler.go: validateSubmit, checkStales, HandleSubmit,
--                  submit, the counters of workers (Share.Stats), whose block it is (Share.Owner),
--                  and the checks of src/pow on what is submitted (Share.Proof)
--   Vardiff        startVardiffThread, updateVarDiff, startVarDiff, startClientVardiff,
--                  getClientVardiff and setClientVardiff of src/htnstratum/share_handler.go
--   Server         the recovery of pending rewards in ListenAndServe of
--                  src/htnstratum/stratum_server.go, by lookups that overlap (Server.Recovery), its
--                  handlers, HandleSubscribe, and a whole connection under them, serve_miner
--                  (Server.Miner)
-- Each has child modules named for what they prove, and Tests with runs at concrete inputs.
--
-- Conventions. A Go string is a list of bytes. An error is none or a constructor of a result type;
-- a dereference of nil is none or a constructor panics. int and int64 wrap at 64 bits; uint64 sums
-- and counters are taken modulo 2^64. A type of floats, with its operations, is a parameter. What a
-- call of the node answers is an argument of the operation that makes the call. An operation runs as
-- one step, without another one between: so do the methods that keep their lock throughout, but
-- AddJob counts before it locks, and the thread of Vardiff does not lock the table of workers.
-- Booking.Race takes two lookups apart, and Server.Recovery any number.
--
-- Fuel: the trimming of spaces and the printing of numbers run on fuel, the length of the text or the
-- number itself, which are enough. The loops of src/pow that draw matrices, and those that scale a
-- float down, run on fuel, too, and give none where it is not enough. The 15 attempts of a reward
-- lookup are the code's own bound.
--
-- Parameters, for code that is not in the repository: HMAC-SHA256, strings.ToLower, the reading of a
-- hash from its text, the parsing of JSON, whether an address decodes, the conversion, the hash and
-- the nonce of a consensus block, and in Pow the hashes and writers of HTND. The conversions of
-- difficulties in src/htnstratum/hasher.go, which are float arithmetic, are arguments, and so are, in
-- Share, the value and the target of a proof of work.
--
-- Not modelled: the comparison of workers' names (an argument of Rewards),
-- the metrics (src/htnstratum/prom.go), the web pages (src/htnstratum/webui.go), the
-- sockets and the threads that accept connections (src/gostratum), the balances
-- that NewBlockAvailable asks for, the build of src/pow that calls a C library, the threads for
-- statistics, the log, the flags and files of cmd/htnbridge. Disk errors of the table are left
-- out. Of the counters of prometheus only the calls are kept, as effects.
pub mod Prelude
pub mod Rpc
pub mod Mining
pub mod Worker
pub mod BridgeFee
pub mod Api
pub mod Db
pub mod Rewards
pub mod Booking
pub mod Hasher
pub mod Pow
pub mod Stratum
pub mod Clients
pub mod Server
pub mod Vardiff
pub mod Share
