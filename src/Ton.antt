-- ===== src/Ton.antt =====
-- internal/core/chain/ton: the client of TON. What tonutils-go computes is the parameter `Toolkit`, and
-- what the chain's nodes answer is the parameter `Node`.
pub mod Cells
pub mod Withdraw
pub mod Signers
pub mod Startup
pub mod Store
pub mod Sends
use relayer_svc.Base.{ℕ, ℤ, String, Bool, Option, List}
use relayer_svc.Chain.{Bytes}
use relayer_svc.Outbox.{Outbox}

-- What is stored in a cell, a value with its width in bits; a cell is named by the bytes that the library
-- makes of it. An address may be nil.
pub data Item : Type 0 where
  store_uint : ℕ → ℕ → Item
  store_int : ℤ → ℕ → Item
  store_big_int : ℤ → ℕ → Item
  store_big_uint : ℕ → ℕ → Item
  store_slice : Bytes → ℕ → Item
  store_addr : Option Bytes → Item
  store_bool_bit : Bool → Item
  store_ref : Bytes → Item

-- What tonutils-go, the hashes and the parsers compute.
pub record Toolkit : Type 0 where
  -- A cell of the items in their order; none if one of them does not fit.
  pub build : List Item → Option Bytes
  pub parse_addr : String → Option Bytes
  pub address_text : Bytes → String
  pub decode_hex : String → Option Bytes
  pub encode_hex : Bytes → String
  pub keccak256 : Bytes → Bytes

-- An argument of a get method.
pub data Argument : Type 0 where
  an_int : ℤ → Argument
  a_cell : Bytes → Argument

-- A message of a wallet, in nanotons; its body may be nil.
pub record Message : Type 0 where
  pub bounce : Bool
  pub destination : Bytes
  pub amount : ℕ
  pub body : Option Bytes

-- What the nodes of the chain answer, by the number of the calls made before. A get method is run at a
-- block, of a contract; its first result is read as a number's bytes or as an address.
pub record Node : Type 0 where
  pub masterchain_info : ℕ → Option ℕ
  pub run_int : ℕ → ℕ → Bytes → String → List Argument → Option Bytes
  pub run_address : ℕ → ℕ → Bytes → String → List Argument → Option Bytes
  pub is_active : ℕ → ℕ → Bytes → Option Bool
  pub send_many_wait_tx_hash : ℕ → Bytes → Message → Option Bytes

-- The messages that were sent, and the number of calls made.
abbrev pub Wire : Type 0
Wire = Outbox Message

-- The client: what its methods use of the configuration.
pub record Client : Type 0 where
  pub toolkit : Toolkit
  pub node : Node
  pub bridge_contract_address : Bytes
