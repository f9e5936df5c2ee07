-- ===== src/Lib.antt =====
-- Verification of the Rust services of web3Bank: the treasury service (services/treasury),
-- which moves funds between the Bank contracts of several chains, and the user service
-- (services/user-service).
--
-- The parts, and the files that model them. Paths are from services/treasury/src.
--   Prelude: names, lists, texts as lists of character codes, and finite maps (a `HashMap`).
--   Rebalance: domain/rebalance.rs, the matching of surpluses with deficits that the cold path
--     and the reserve planner share. The loop runs on fuel, `enough_rounds`: each round skips a
--     vector's head or moves at least 1, unless the cap is 0 (Rebalance/Termination). What is
--     moved is in Rebalance/Matching, Bounds, Sorting and Plan.
--   Domain: the pure decisions. Domain/Relay is domain/relay.rs and domain/status.rs,
--     Domain/Withdrawal is domain/withdrawal_routing.rs, Domain/Balance is domain/balance.rs.
--   Eth: Eth/Hex is the hexadecimal text of eth/encoding.rs, Eth/Abi the call data of
--     domain/abi.rs with the big-endian words of Eth/Words, Eth/Messages the message identifiers
--     that it finds in receipts, Eth/Rlp the coding of eth/encoding.rs and the transactions of
--     eth/tx.rs, with the rules of RLP in Eth/RlpRules and Eth/Payloads, Eth/BridgeIn Solidity's
--     rules for the arguments of `bridgeIn`, Eth/Chains the chains of a cycle with their depths,
--     Eth/Activation with Eth/Csv the events of the RouteReceiver that eth/encoding.rs decodes
--     (sums beyond 2^64, which panic there, read as too large), and Eth/Submit the submission of
--     a transaction (`submit_*_once`, `submit_*_with_retry` and `get_nonce`), of which
--     hot_path.rs, cold_path.rs, reserve_path.rs and watcher.rs each hold a copy, with the errors
--     of error.rs. It is a state and error monad on the nonce cache. Of eth/rpc.rs,
--     Eth/Quantity is `parse_hex_u64`, Eth/Rpc the view calls, and Eth/Receipts the gas price, the
--     nonce, the send and `wait_for_receipt_logs`, whose loop has two rounds more than its timeout has half seconds,
--     and each round takes half a second at least (Eth/Waiting).
--   HotPath: `relay_event` of hot_path.rs (HotPath/Relay) on the rows of treasury.relay_logs
--     with the queries of db/relay_repo.rs (HotPath/RelayLogs). HotPath/Polls is
--     `poll_events_loop` and `poll_route_receiver_loop`, one round at a time: a round of the
--     first gives the events whose relay it spawns and the block ranges it asks the nodes for;
--     HotPath/Rounds is its rounds as turns of the chains.
--   ColdPath: `run_rebalance_cycle` of cold_path.rs. What a cycle plans from the depths it
--     read, and the planning of reserve_path.rs from its depths, is ColdPath/Planner;
--     `split_amount_by_cap` is ColdPath/Chunks; treasury.rebalance_ops with db/rebalance_repo.rs
--     is ColdPath/RebalanceOps; a chunk's submission is ColdPath/Cycle, and an operation and the
--     cycle are ColdPath/Execute. A cycle whose matching does not end is `none`.
--   ReservePath: the three loops of reserve_path.rs. treasury.reserve_ops with
--     db/reserve_repo.rs is ReservePath/ReserveOps; the state, the two contract calls and their
--     submission are ReservePath/Calls; `run_planner_cycle`, `relay_one` and `run_watcher_cycle`
--     are ReservePath/Planner, Relayer and Watcher. The lifecycle of an operation is
--     ReservePath/Moves, and the rounds of the loops are the steps of ReservePath/Steps; an
--     `UPDATE` changes every row of its operation, and `LIMIT 1` takes the first row. Chain
--     numbers are the same as `u64` and as `i64`.
--   Watcher: watcher.rs with db/watcher_repo.rs. Watcher/Events parses the two events and keeps
--     the cache of initiated ones, Watcher/Verify is `verify_release` and `pause_contract`. The
--     logs that Watcher/Parsing parses are laid out as Bank.sol declares its events.
--   Decommission: decommission.rs with db/decommission_repo.rs (Decommission/Ops). The drain of
--     a chain is Decommission/Drain; the bank, the user service and the holders' index are its
--     ports, and the state records every call of the bank. A `u64` is printed with 20 rounds, the
--     number of its digits; `to_lowercase` is that of ASCII text.
--     Of decommission_runtime.rs, Decommission/DrainIds is `parse_drain_id` and `make_drain_id`,
--     Decommission/Bank the calls of the bank (Decommission/StaleNonce is about their nonce), and
--     Decommission/Plan `build_drain_plan`, the holders of the index and the checks before a
--     drain (the holders of a plan are in Decommission/PlanHolders and PlanCovers). The control of
--     drains in server.rs is Decommission/Server and Status, on the queries of
--     Decommission/Queries: its steps are the requests and the ends of drains
--     (Decommission/Control), and a drain runs whole when it ends, since a request meanwhile
--     changes nothing but the time.
--   AccountIndex: account_index.rs. treasury.account_events and treasury.index_cursors with the
--     queries of db/account_event_repo.rs are AccountIndex/Events, the parsing of the logs
--     AccountIndex/Parsing, `ingest_row` with the request to the user service AccountIndex/Ingest,
--     and `index_chain` and a round of `poll_loop` AccountIndex/Index; a round looks for the
--     bank's address of a chain when its turn comes.
--   Accounts: what a user is told. Accounts/Activity is domain/activity.rs and
--     account_activity.rs, Accounts/Balance account_balance.rs with its cache, Accounts/Routing
--     account_withdrawal_routing.rs, and Accounts/Pools pool_manager.rs with
--     db/pool_snapshot_repo.rs. Chains are read one after the other.
--   UserService: services/user-service/src. The values of domain/validation.rs are
--     UserService/Validation, the rows of the two tables and what each statement does to them
--     UserService/Tables, the methods of db/users.rs and db/credentials.rs UserService/Queries,
--     and the handlers of grpc/user_service.rs UserService/Handlers, with their messages in
--     UserService/Replies. `serve` handles one request after another; every query may be refused
--     by the database, and a transaction is one query.
--   Tests: tests at the inputs of the unit tests, and the theorems at concrete inputs.
--
-- What the program does not contain is a parameter: the answers of the RPC nodes and the
-- signing library (`Node`, whose `sign_eip1559_tx` is any function; the one of eth/tx.rs is in
-- Eth/Rlp), the logs of a contract, Circle's messages, whether the database answers
-- (`database_up`, `refusal`), the identifiers and the clock of the database, the texts of
-- UUIDs, times and base64, the watcher's JSON text, and the ports of a drain. Each answer
-- depends on the time of the call, and the time passes with each call, so that answers may
-- change at will. The state records every transaction that was sent.
--
-- Amounts are 256-bit words: in ColdPath/Planner sums and products wrap as those of `U256` do,
-- and Domain/Balance saturates. `chain_id` and nonces are natural numbers below 2^64. Loops are
-- structural or on fuel: `split_amount_by_cap` has one round for each unit and one more, and a
-- submission has its three attempts.
--
-- Not modelled: HTTP, JSON, SQL beyond its effect on the rows, logging, waiting times, the
-- interleaving of tasks, signatures, the polling loops of cold_path.rs and watcher.rs and of the
-- reserve path's sets of chains, the call of the user service in decommission_runtime.rs (a port of
-- the drain), the handlers of server.rs
-- that only pass values on, the configuration and the startup of the services; and the
-- BFF, the applications and the contracts.
pub mod Prelude
pub mod Rebalance
pub mod ReservePath
pub mod Domain
pub mod Eth
pub mod HotPath
pub mod ColdPath
pub mod Watcher
pub mod Decommission
pub mod UserService
pub mod AccountIndex
pub mod Accounts
mod Tests
