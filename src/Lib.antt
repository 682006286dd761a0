-- ===== src/Lib.antt =====
-- The evore program: a Solana program that plays the ORE mining game for its users, modelled handler
-- by handler.
--
-- A user's manager account owns managed miners, each at a program address derived from the manager and
-- an id. The manager's authority funds and empties that address; a deployer account names a deploy
-- authority (an executor) that may deploy from it, for a fee. How much goes on which of the 25 squares
-- is the caller's choice or a strategy's: the expected-value planner, a percentage of each square, an
-- even split, or fixed amounts.
--
-- Files, and the code they are about (paths from the repository's root):
--   Prelude: Boolean tests, lists, the integers, and Rust's fixed-width arithmetic: saturating,
--     checked, wrapping and casting operations are functions with their bound written out.
--   Error: program/src/error.rs. OreApi: the accounts of program/src/ore_api.rs that are read.
--   State: program/src/state.rs and program/src/consts.rs, with the structs' layout as bytes.
--   Runtime: what the program runs on. A handler is a function from the transaction under way (the
--     accounts, the slot, the calls made so far) to a result and a transaction, or to an error,
--     which abandons it. Addresses, cross-program calls, rent and steel's typed account reads are
--     the fields of a record `Runtime`, an argument of every handler. The hypotheses on it are
--     `AsAccountReads`, steel's contract for `as_account`; for the creation of a strategy deployer
--     `CreatesSpace`, that `create_account` allocates the space asked for; for the recycling of
--     plain deployers `AccountDataReads`, that `try_from_bytes` of an account's struct is given the
--     whole data and passes only on the discriminator and the size; and for what deployments leave
--     in a balance `TransfersMove`, that the system program's transfer moves lamports. The calls are
--     recorded in order. What `as_account` borrows is read again after a call, since the call may
--     have changed the account.
--   Validation: program/src/validation.rs.
--   Instruction: the discriminators of program/src/instruction.rs and its strategies in bytes.
--   MmDeploy: program/src/processor/process_mm_deploy.rs, its handler left to Processor. Sqrt,
--     Profit, Allocation and Plan are the expected-value planner, Percentage and Calculate the other
--     strategies, Batch the batches that all of them return. Each has its source's function names.
--   StrategyDispatch: program/src/processor/strategy_dispatch.rs.
--   Processor: the handlers of program/src/processor. Manager is process_create_manager.rs and
--     process_transfer_manager.rs; Deployer process_create_deployer.rs and
--     process_update_deployer.rs; StratDeployer process_create_strat_deployer.rs and
--     process_update_strat_deployer.rs; Balance process_deposit_autodeploy_balance.rs and
--     process_withdraw_autodeploy_balance.rs; Autodeploy process_mm_autodeploy.rs; StratAutodeploy
--     process_mm_strat_autodeploy.rs; FullAutodeploy process_mm_full_autodeploy.rs and
--     process_mm_strat_full_autodeploy.rs; MmDeploy the handler of process_mm_deploy.rs; Automation
--     the session of ORE's automation that these three files share, and Rounds what they share about
--     a round; Claims process_checkpoint.rs, process_claim_sol.rs, process_mm_autocheckpoint.rs,
--     process_mm_strat_autocheckpoint.rs and process_recycle_strat_sol.rs; Tokens
--     process_claim_ore.rs, process_withdraw_tokens.rs, process_mm_create_miner.rs and
--     process_recycle_sol.rs. Loads and Fees are the guards, reads and sums they share. A handler
--     takes its accounts by name and its arguments decoded.
--   Entry: `process_instruction` of program/src/lib.rs. Handlers reads the arguments' structs of
--     program/src/instruction.rs at their offsets and counts their bytes; Dispatch takes each
--     handler's accounts from the list, which has to have the length that the handler names.
--   Builders: the instructions that clients build, program/src/instruction.rs. Requests and
--     RoundRequests have a constructor for each builder, with the handler that it is for. The
--     treasury, the mint, and the addresses of entropy and of token accounts are fields of
--     `Runtime`. The hypothesis `DataReads` is that `try_from_bytes` of an instruction's
--     arguments passes on bytes of the struct's size.
--
-- Bounds. A u64, u128 or i128 is a number with the source's saturation, check or cast written out;
-- what the source leaves unchecked wraps, as it does in the release build. The Newton loop recurs on
-- the accessibility of its argument and needs no fuel; the loops over squares and the searches over
-- lambda recur on the source's own iteration counts. Theorems on the profit arithmetic hold for pools
-- of at most 2^55 lamports (36 million SOL) and prices of at most 2^60. A public key is a number; where
-- it is written into an account, theorems take it to be below 256^32.
--
-- Not modelled: the builders of program/src/instruction.rs for manual deployments and the creation
-- and update of strategy deployers; accounts that a handler only passes on to a call; the
-- writability checks that the runtime itself makes; the calls of the token programs but for their
-- arguments; and the crank under crank/src, a client of the program.
pub mod Prelude
pub mod Error
pub mod OreApi
pub mod Runtime
pub mod State
pub mod Validation
pub mod MmDeploy
pub mod StrategyDispatch
pub mod Instruction
pub mod Processor
pub mod Entry
pub mod Builders
