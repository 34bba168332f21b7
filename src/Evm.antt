-- ===== src/Evm.antt =====
-- internal/core/chain/evm: the client of an EVM chain. What go-ethereum computes is the parameter
-- `Ethereum`, and what the chain's nodes answer is the parameter `Node`.
pub mod Data
pub mod Finalize
pub mod Withdraw
pub mod Signers
pub mod Sends
pub mod Finality
pub mod Refused
pub mod Startup
pub mod Mined
use relayer_svc.Base.{
  ℕ, ℤ, ◌+◌, ◌*◌, ◌/◌, ◌≡◌, ◌<◌, pos, negsuc, sub_ℕ, String, str_eq, Bool, true, false, ◌||◌,
  Option, none, some, List, [], ◌∷◌, length, State, case_option, if◌then◌else◌,
}
use relayer_svc.Types.{Error, err_chain, err_panic, Result, ok, err}
use relayer_svc.Db.{Deposit}
use relayer_svc.Retry.{Retrier}
use relayer_svc.Attempt.{Attempt, pure, ◌>>=◌}
use relayer_svc.Chain.{Bytes}
use relayer_svc.Outbox.{Outbox, ask, with_retry}

-- A call of the bridge contract, with its arguments in the order of the binding.
pub data Call : Type 0 where
  call_native : ℤ → Bytes → Bytes → ℤ → List Bytes → Call
  call_erc20 : Bytes → ℤ → Bytes → Bytes → ℤ → Bool → List Bytes → Call
  call_erc20_merkelized : Bytes → ℤ → Bytes → Bytes → ℤ → Bool → List Bytes → List Bytes → Call
  call_native_merkelized : ℤ → Bytes → Bytes → ℤ → List Bytes → List Bytes → Call
  call_update_signer : Bytes → ℕ → ℕ → ℤ → Bool → List Bytes → Call

-- The functions of the ABI in contracts/bridge.go that withdraw or update signers.
abbrev pub bridge_methods : List String
bridge_methods =
    "updateSigner" ∷ "withdrawERC1155" ∷ "withdrawERC20" ∷ "withdrawERC20Merkelized"
    ∷ "withdrawERC721" ∷ "withdrawNative" ∷ []

abbrev pub names : List String → String → Bool
names [] s = false
names (n ∷ ns) s = str_eq n s || names ns s

-- What go-ethereum computes. The packer refuses a withdrawal function that the ABI does not have.
pub record Ethereum : Type 0 where
  pub decode_hex : String → Option Bytes
  pub keccak256 : Bytes → Bytes
  pub hex_to_address : String → Bytes
  pub address_text : Bytes → String
  pub hash_text : Bytes → String
  pub unmarshal_strings : String → Option (List String)
  pub pack : String → Call → Option Bytes
  pub pack_unknown :
      (name : String) (c : Call) → names bridge_methods name ≡ false → pack name c ≡ none

-- `bind.TransactOpts`; its gas price and its value are never set.
pub record TransactOpts : Type 0 where
  pub from : Bytes
  pub chain_id : ℕ
  pub nonce : ℕ
  pub gas_limit : ℕ

-- `types.LegacyTx`, whose value and gas price come from the options, and so are nil.
pub record LegacyTx : Type 0 where
  pub nonce : ℕ
  pub gas : ℕ
  pub to : Bytes
  pub payload : Bytes

pub record CallMsg : Type 0 where
  pub from : Bytes
  pub to : Bytes
  pub gas_price : ℤ
  pub payload : Bytes

-- A subscription to new heads: the numbers of the headers that come before it ends, and whether its
-- channel is closed, or the deadline passes.
pub record Delivery : Type 0 where
  pub headers : List ℤ
  pub closes : Bool

pub data ReceiptAnswer : Type 0 where
  no_receipt receipt_fails : ReceiptAnswer
  receipt_status : ℕ → ReceiptAnswer

-- The receipts of a block, by hash and status; `unavailable` is the error that the node has no such
-- method.
pub data BlockReceipts : Type 0 where
  unavailable receipts_fail : BlockReceipts
  receipts : List (Bytes × ℕ) → BlockReceipts

-- What the nodes of the chain answer, by the number of the calls made before.
pub record Node : Type 0 where
  pub suggest_gas_price : ℕ → Option ℕ
  pub chain_id : ℕ → Option ℕ
  pub pending_nonce : ℕ → Bytes → Option ℕ
  pub estimate_gas : ℕ → CallMsg → Option ℕ
  pub header_number : ℕ → Option ℤ
  pub contains_hash : ℕ → Bytes → ℤ → Option Bool
  pub sign_tx : Bytes → LegacyTx → Option Bytes
  -- The contract's binding packs, signs and sends the call, and answers with the transaction's hash.
  pub transact : ℕ → TransactOpts → Call → Option Bytes
  pub wait_mined : ℕ → Bytes → Option ℕ
  pub subscribe_new_head : ℕ → Option Delivery
  pub transaction_receipt : ℕ → Bytes → ReceiptAnswer
  pub block_receipts : ℕ → ℤ → BlockReceipts

-- The calls that were handed to the contract's binding, and the number of calls made.
abbrev pub Wire : Type 0
Wire = Outbox Call

-- The client: what its methods use of the configuration, and retry-go for each of its closures.
pub record Client : Type 0 where
  pub ethereum : Ethereum
  pub node : Node
  pub bridge_address : Bytes
  pub gas_price_multiplier : ℤ
  pub retry_header : Retrier (Option ℤ × Wire)
  pub retry_subscription : Retrier (Option Delivery × Wire)
  pub retry_finalizer : Retrier Wire

-- `getBlockWithRetry`
unfoldable pub get_block_with_retry : Client → Attempt Wire ℤ
unfolding with_retry
get_block_with_retry c = with_retry c.retry_header c.node.header_number

mul : ℕ → ℤ → ℤ
mul n (pos m) = pos (n * m)
mul n (negsuc m) = sub_ℕ 0 (n * (m + 1))

-- `Div` by a hundred, rounded down.
percent : ℤ → ℤ
percent (pos n) = pos (n / 100)
percent (negsuc n) = negsuc (n / 100)

-- `prepareTxOpts`, for the address of the operator. The gas price serves the estimate only.
unfoldable pub prepare_tx_opts : Client → Bytes → Bytes → Attempt Wire TransactOpts
unfolding ask mul percent
prepare_tx_opts c payload from = do
  gas_price ← ask c.node.suggest_gas_price
  chain_id ← ask c.node.chain_id
  nonce ← ask λ n. c.node.pending_nonce n from
  gas_limit ← ask λ n. c.node.estimate_gas n (record {
    from = from;
    to = c.bridge_address;
    gas_price = percent (mul gas_price c.gas_price_multiplier);
    payload = payload;
  })
  pure (record { from = from; chain_id = chain_id; nonce = nonce; gas_limit = gas_limit })
