-- ===== src/Eth.antt =====
-- services/treasury/src/eth: texts, ABI data, and the submission of transactions.
pub mod Hex
pub mod Abi
pub mod Rlp
pub mod RlpRules
pub mod Payloads
pub mod Words
pub mod Submit
pub mod Messages
pub mod Chains
pub mod BridgeIn
pub mod Csv
pub mod Quantity
pub mod Rpc
pub mod Receipts
pub mod Waiting
pub mod Activation
