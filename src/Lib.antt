-- ===== src/Lib.antt =====
-- The relayer service of the bridge: it learns of deposits from the core chain, sends the withdrawal of
-- each to its destination chain, and reports the withdrawal to the core.
--
-- Parts, and the files that model them:
--   Types        internal/types/types.go, internal/types/epochs.go: statuses and sentinel errors
--   Db           internal/db/deposits.go, internal/db/signatures.go: the records; Db/Text and Db/Keys
--                are `DepositIdentifier.String` and what it tells apart
--   Postgres     internal/db/postgres: Postgres/Deposits, Postgres/Signatures and Postgres/Blocks have a
--                function for each method that reads or writes a table; Postgres/Selector is what the
--                filters of a query add up to; Postgres/Rows sees the deposits table as a map
--   Env          the world outside: database faults, the clock, the chains, the core node
--   Retry        internal/core/retry.go: `DoWithRetry`
--   Connector    internal/core/connector/get_tx.go (`GetDeposit`, `txToDeposit`) and `toTransaction`;
--                Connector/Update is `UpdateTxInfo`, `submitMsgs` and `buildTx`
--   Containers   internal/core/broadcaster/containers/common.go; Containers/Broadcast, Containers/Catchup
--                and Containers/Signers are the `Run` methods, a function for each part of their body
--   Repository   internal/core/chain/repository/repo.go
--   Broadcaster  internal/core/broadcaster/broadcaster.go: `BroadcastDeposit` and `checkExistence`;
--                Broadcaster/Epochs has the epochs' methods, Broadcaster/CatchUp `CatchUp` and
--                internal/core/catch-upper, Broadcaster/Workers network_worker.go,
--                Broadcaster/Submitter core_submitter.go, Broadcaster/Run the goroutines that `Run` starts, and
--                Broadcaster/Limits the limits of the recovery, which the API sets
--   Chain        internal/core/chain/types.go and utils.go; Chain/Operators is `ConfigureChildClients` of the
--                three kinds of clients, Chain/Config the configuration of a chain, Chain/Hashes the patterns of
--                hashes of internal/core/common.go
--   Outbox       what the clients of the chains share: calls of the nodes, and what was handed to them;
--                Outbox/Ensures and Outbox/Triples reason on it; Attempt is the monad of their code
--   Evm          internal/core/chain/evm: Evm/Data (data.go, utils.go), Evm/Withdraw and Evm/Finalize
--                (withdraw.go), Evm/Signers (signer.go); `prepareTxOpts` of chain.go is in Evm itself
--   Solana       internal/core/chain/solana: Solana/Data (the hashes, addresses and signatures of helpers.go
--                and utils.go), Solana/Metadata (`parseTokenMetadata`), Solana/Withdraw (withdraw.go, spl.go,
--                vault.go, wrapped.go, client.go), Solana/Signers (signer.go)
--   Ton          internal/core/chain/ton: Ton/Cells (the cells of utils.go, native.go, jetton.go, signer.go),
--                Ton/Withdraw (client.go, withdrawal.go), Ton/Signers (signer.go), Ton/Store (`IsProcessed`)
--   Clients      the interface `ChildClient` of internal/core/chain/types.go, with the child clients of the three
--                kinds behind it, and the `Environment` that they make; Clients/Relay, Clients/Rounds and
--                Clients/Epochs join them to the containers and the workers
--   Startup      internal/core/chain/config/config.go and the configured children of
--                internal/core/chain/repository/repo.go; Evm/Startup, Solana/Startup and Ton/Startup are
--                `FromChain`, `NewBridgeClient` and the hooks of each kind
--   Observer     internal/core/observer/observer.go: reading a block, the wait for the block distance and the
--                admission of a block; Observer/Loop is `fetchEvents`, Observer/Attributes utils.go,
--                Observer/Numbers the numbers that utils.go reads with strconv
--   Api          internal/api/common/common.go; Api/Handlers is submit_withdrawal.go, check_withdrawal.go and
--                get_withdrawals_by_status.go of internal/api/grpc
--   Base         shared names, Boolean tests, integers, and the state monad of the code
--   Tests        inputs and runs
--
-- How they interact: the observer and the API hand a deposit to `BroadcastDeposit`, which stores its row,
-- puts its key into the cache and queues a container; a worker runs the container, which marks the row,
-- calls the chain and stores what it answered; the submitter collects what the workers return and reports
-- it to the core in batches. When the service starts, the catch-upper queues the rows that are not final.
--
-- Code that changes state is a function from a state to a result and a state. `World` has the tables, the
-- withdrawals that were sent, the transactions of the core and the number of calls made; `Service` adds the
-- cache and the queues; a channel with its waiting senders is a list. What the outside answers is given by
-- `Environment`, which may answer differently at each call; retry-go is the parameter `Retrier`. Goroutines
-- are steps, in any order (`Step` and `Reaches` of Broadcaster/Waiting/Steps). Nothing locks the cache while
-- `BroadcastDeposit` and `CatchUp` run, so the parts of their calls are steps of their own there
-- (Broadcaster/Waiting/Calls): two calls for one deposit that run side by side can both queue it, and what is
-- said of the queue is said of calls that do not.
--
-- Numbers: uint64 and int64 are converted with their wrap-around written out; a time is a number of
-- nanoseconds. Fuel: `decimal` prints n with n rounds of fuel, and each round divides by ten, so it is enough.
-- `wait_for_block_distance` has one round of fuel for each look at the current height, and says so if it
-- is spent; the source waits for ever there.
--
-- The clients of the chains are modelled by themselves: go-ethereum, solana-go and tonutils-go are the
-- parameters `Ethereum` and `Toolkit`, and each chain's nodes are a parameter `Node`, which may answer
-- differently at each call. To the broadcaster they are the answers of `Environment`: `with_clients` is the
-- environment whose chains are served by clients, each call of which begins after some number of calls of
-- the chain's nodes. Where their code panics, the model returns the error `err_panic`, and a container whose
-- call of `Withdraw` or `UpdateSigners` panics ends the process with it; where the start of
-- the service panics, it has no value. What figure decodes is a parameter, and a connection is known by its
-- endpoint.
--
-- Not modelled: generated code (internal/core/chain/solana/contract, internal/core/chain/evm/contracts and
-- internal/core/chain/ton/contract), how figure and viper read the file, the order in which the goroutines of
-- the service start, the servers, logging, migrations, contexts that are cancelled while a container runs, and the order in which a
-- database mixes the statements of two goroutines within one step.
pub mod Base
pub mod Types
pub mod Db
pub mod Env
pub mod Postgres
pub mod Retry
pub mod Attempt
pub mod Outbox
pub mod Chain
pub mod Connector
pub mod Containers
pub mod Repository
pub mod Broadcaster
pub mod Observer
pub mod Evm
pub mod Solana
pub mod Ton
pub mod Clients
pub mod Startup
pub mod Api
mod Tests
