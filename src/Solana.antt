-- ===== src/Solana.antt =====
-- internal/core/chain/solana: the client of Solana. What solana-go computes is the parameter `Toolkit`,
-- and what the chain's nodes answer is the parameter `Node`.
pub mod Data
pub mod Metadata
pub mod Withdraw
pub mod Signers
pub mod Startup
pub mod Processed
pub mod Sends
use relayer_svc.Base.{ℕ, ℤ, String, Bool, Option, List}
use relayer_svc.Chain.{Bytes}
use relayer_svc.Retry.{Retrier}
use relayer_svc.Outbox.{Outbox}

-- `withdrawalContext`
pub record WithdrawalContext : Type 0 where
  pub receiver : Bytes
  pub token : Bytes
  pub withdrawal_pda : Bytes
  pub authority : Bytes
  pub bridge_id : String
  pub uid : Bytes
  pub sig : Bytes
  pub rec_id : ℕ
  pub withdrawal_tx_hash : Bytes
  pub tx_nonce : ℕ
  pub amount : ℕ

-- `tokenMetadata`
pub record TokenMetadata : Type 0 where
  pub name : String
  pub symbol : String
  pub uri : String
  pub nonce : ℕ

-- The instructions of the bridge's program, with the arguments that the client chooses, in the order of
-- the constructors' parameters: a withdrawal takes its own from the context.
pub data Instruction : Type 0 where
  -- The context and the signer.
  withdraw_native : WithdrawalContext → Bytes → Instruction
  -- The context, the vault, the signer and the token's owner.
  withdraw_spl : WithdrawalContext → Bytes → Bytes → Bytes → Instruction
  -- The token's nonce and symbol, the context and the signer.
  withdraw_wrapped : ℕ → String → WithdrawalContext → Bytes → Instruction
  -- The bridge, the token, the vault, the signer and the token's owner.
  init_spl_vault : String → Bytes → Bytes → Bytes → Bytes → Instruction
  -- The bridge, whether the signer is added, the signer, the times, the nonce, the signature with its
  -- recovery identifier, the authority and the operator.
  update_signer : String → Bool → Bytes → ℤ → ℤ → ℕ → Bytes → ℕ → Bytes → Bytes → Instruction

-- A value of JSON.
mutual
  pub data Json : Type 0 where
    json_null : Json
    json_bool : Bool → Json
    json_number : String → Json
    json_string : String → Json
    json_array : Items → Json
    json_object : Fields → Json

  pub data Items : Type 0 where
    no_items : Items
    item : Json → Items → Items

  pub data Fields : Type 0 where
    no_fields : Fields
    field : String → Json → Fields → Fields

-- What solana-go, the hashes and the parser of JSON compute. The program of the bridge is fixed.
pub record Toolkit : Type 0 where
  pub sha256 : Bytes → Bytes
  pub public_key_from_base58 : String → Option Bytes
  pub find_program_address : List Bytes → Option Bytes
  pub decode_hex : String → Option Bytes
  pub key_text : Bytes → String
  pub unmarshal : Bytes → Option Json
  -- A transaction of the instruction on a blockhash, signed by a wallet: the text of its signature.
  pub sign_transaction : Instruction → Bytes → Bytes → Option String

-- What `GetAccountInfo` answers: the account's owner, `rpc.ErrNotFound` or another error.
pub data AccountAnswer : Type 0 where
  account : Bytes → AccountAnswer
  not_found account_fails : AccountAnswer

-- What the nodes of the chain answer, by the number of the calls made before.
pub record Node : Type 0 where
  pub account_info : ℕ → Bytes → AccountAnswer
  pub account_json : ℕ → Bytes → Option Bytes
  -- The latest blockhash, with the last block height at which it is valid.
  pub latest_blockhash : ℕ → Option (Bytes × ℕ)
  pub send_and_confirm : ℕ → Instruction → Option String

-- The instructions that were sent, and the number of calls made.
abbrev pub Wire : Type 0
Wire = Outbox Instruction

-- The client: what its methods use of the configuration.
pub record Client : Type 0 where
  pub toolkit : Toolkit
  pub node : Node
  pub bridge_id : String
  pub retry_block : Retrier (Option (Bytes × ℕ) × Wire)
