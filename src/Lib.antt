-- ===== src/Lib.antt =====
-- Sweat Jar: a NEAR contract for deposits of SWEAT tokens ("jars") that earn interest.
--
-- The crates `primitives` (decimals), `model` (data and pure operations) and `contract` (the calls)
-- are modelled as functions on a contract state; a call returns the new state with its answer, or
-- panics, in which case nothing of it is kept.
--
-- Base              shared names; Outcome: the result type, panics and checked arithmetic; Dict: maps;
--                   Ensures: postconditions of calls
-- Decimal           primitives/src/lib.rs
-- Time              model/src/lib.rs, model/src/types/timestamps.rs and timezone.rs
-- Score             model/src/data/score: daily scores, boosters, increments
-- Features          model/src/data/account/features.rs
-- Product           model/src/data/product, model/src/types/configurable.rs
-- Jar, Account      model/src/data/jar, model/src/data/account
-- Interest          model/src/interest.rs
-- Contract          contract/src/lib.rs, contract/src/common/assertions.rs and the common.rs files: the
--                   state, the host's side of a call (Env), guards, access to accounts and products
-- Settle, Oracle    contract/src/feature/account/api.rs, contract/src/feature/penalty/api.rs
-- Deposits          contract/src/feature/account/common.rs and verification, model/src/data/deposit
-- Claim, Withdraw, Restake, Fees   contract/src/feature/claim, withdraw, restake and fee
-- Catalog           contract/src/feature/product/api.rs, contract/src/migration/api.rs
-- Migration         the older versions of accounts, and contract/src/migration/api.rs
-- Airdrop           contract/src/feature/airdrop and ft_receiver.rs (`ft_on_transfer`)
-- View              model/src/data/jar/view.rs and account/view.rs, the calls that only read
-- Authority         `init` and the grant of roles (contract/src/lib.rs)
-- World             model/src/api.rs and the callbacks: every public call and every callback as the steps
--                   of one relation on the state, the time and the pending callbacks
-- Keeper            the interface of a predicate that survives the writes which leave deposits alone;
--                   its children carry it through the handlers, once for all its instances
-- Invariant         the first instance, what holds of every account between calls
-- Held              the second, a jar that is locked while its transfer is pending
-- Book              an abstraction of the state, the deposits of each account and product, and what a
--                   call makes of it
-- Ledger            the principal of all deposits under the calls and callbacks
-- Pending           what pending callbacks count on, runs of the contract with them, and that they return
-- Examples          the theorems at a concrete contract
--
-- A call that moves tokens ends in a transfer and the arguments of its callback; the callback is a
-- function of the state that it finds, of those arguments, and of whether the transfer succeeded.
-- Calls that come between the two are whatever changed the state; World makes them steps.
--
-- Choices. The workspace builds with overflow checks (.cargo/config.toml), so an overflow is a panic;
-- u128, u64, u32 and u16 arithmetic is checked or saturates where the source does. A hash map is an
-- association list, whose order stands for the unspecified order of the map. The products cache
-- answers as the products do and is not kept. `partition_point` is the length of the liquid prefix,
-- which is what a binary search finds in deposits sorted by age. The time scale is that of production.
-- Every loop is a structural recursion over a list, so no fuel is needed.
--
-- Parameters. Roles (near_plugins), the check of ed25519 signatures, the gas left, and the float
-- comparison of `assert_fee_amount` are fields of Env. A signed message is given by the fields that
-- its text is made of. Messages arrive parsed and accounts decoded (JSON, Borsh and Base64 are not
-- modelled), but for one change that JSON makes to the arguments of a callback: the cache of a claim's
-- rollback, `Some(None)`, is read back as `None` (`from_json` in Jar). The account that a migration stores comes from the previous contract: a step of World
-- that migrates one has the premise that it is as accounts are. The access control that `init` sets up
-- is a parameter of Authority. Not modelled: events, storage layout, upgrades, later changes of access
-- control, and code compiled only for tests or integration features.
pub mod Base
pub mod Decimal
pub mod Time
pub mod Score
pub mod Features
pub mod Product
pub mod Jar
pub mod Account
pub mod Interest
pub mod Contract
pub mod Settle
pub mod Oracle
pub mod Deposits
pub mod Claim
pub mod Withdraw
pub mod Restake
pub mod Fees
pub mod Catalog
pub mod Migration
pub mod Airdrop
pub mod Keeper
pub mod Ledger
pub mod Pending
pub mod Invariant
pub mod World
pub mod Held
pub mod Book
pub mod View
pub mod Authority
pub mod Examples
