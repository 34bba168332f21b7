-- ===== src/Evm/Startup.antt =====
-- `FromChain` of internal/core/chain/evm/chain.go, the hooks of types.go, and `NewBridgeClient` and
-- `ConfigureChildClients` of client.go. Where the code panics, there is no value.
use relayer_svc.Base.{ℤ, String, str_eq, Bool, Option, none, some, List, map, if◌then◌else◌}
use relayer_svc.Retry.{Retrier}
use relayer_svc.Chain.{Bytes, type_evm, type_text}
use relayer_svc.Chain.Config.{Value, texts_value, Chain, ◌>>=◌, texts_hook}
use relayer_svc.Chain.Operators.{configure_child_clients, enough_keys}
use relayer_svc.Evm.{Ethereum, Node, Client, Wire, Delivery}

-- What figure, go-ethereum and retry-go do when the service starts.
pub record Setup : Type 0 where
  -- The hooks `figure.EthereumHooks`, and what figure makes of a number.
  pub ethereum_client : Value → Option String
  pub ethereum_address : Value → Option Bytes
  pub number : ℤ → Option ℤ
  -- `crypto.HexToECDSA` and `crypto.PubkeyToAddress`.
  pub hex_to_ecdsa : String → Option Bytes
  pub pubkey_to_address : Bytes → Bytes
  -- go-ethereum with the ABI of the bridge, if that can be parsed.
  pub bridge_abi : Option Ethereum
  -- `contracts.NewBridge` succeeds for the address and the endpoint.
  pub new_bridge : Bytes → String → Bool
  -- The nodes behind the two endpoints.
  pub node : String → String → Node
  pub retry_header : Retrier (Option ℤ × Wire)
  pub retry_subscription : Retrier (Option Delivery × Wire)
  pub retry_finalizer : Retrier Wire

pub record EvmChain : Type 0 where
  pub id : String
  pub rpc : String
  pub bridge_address : Bytes
  pub operators_priv_keys : List Bytes
  pub workers : ℤ
  pub ws_rpc : String
  pub ws_timeout : ℤ
  pub gas_price_multiplier : ℤ

-- `EVMHooks`
unfoldable pub evm_hooks : Setup → Value → Option (List Bytes)
unfolding texts_hook
evm_hooks x v = texts_hook x.hex_to_ecdsa v

-- The fields that are decoded one after another.
unfoldable pub decode : Setup → Chain → Option EvmChain
unfolding evm_hooks
decode x c = do
  rpc ← x.ethereum_client c.rpc
  bridge_address ← x.ethereum_address c.bridge_addresses
  keys ← evm_hooks x (texts_value c.operators_private_keys)
  ws_timeout ← x.number c.ws_timeout
  workers ← x.number c.workers
  ws_rpc ← x.ethereum_client c.ws_rpc
  gas_price_multiplier ← x.number c.gas_price_multiplier
  some (record {
    id = c.id;
    rpc = rpc;
    bridge_address = bridge_address;
    operators_priv_keys = keys;
    workers = workers;
    ws_rpc = ws_rpc;
    ws_timeout = ws_timeout;
    gas_price_multiplier = gas_price_multiplier;
  })

-- `FromChain`
unfoldable pub from_chain : Setup → Chain → Option EvmChain
unfolding decode
from_chain x c =
    if str_eq c.chain_type (type_text type_evm)
    then (do
      chain ← decode x c
      if enough_keys chain.workers chain.operators_priv_keys then some chain else none)
    else none

-- `NewBridgeClient`
unfoldable pub new_bridge_client : Setup → EvmChain → Option Client
new_bridge_client x chain = do
  abi ← x.bridge_abi
  if x.new_bridge chain.bridge_address chain.rpc
      then some (record {
        ethereum = abi;
        node = x.node chain.rpc chain.ws_rpc;
        bridge_address = chain.bridge_address;
        gas_price_multiplier = chain.gas_price_multiplier;
        retry_header = x.retry_header;
        retry_subscription = x.retry_subscription;
        retry_finalizer = x.retry_finalizer;
      })
      else none

-- The signers of the child clients: `AddSigner` keeps a key with its address.
unfoldable pub child_signers : Setup → EvmChain → Option (List (List Bytes))
child_signers x chain =
    configure_child_clients chain.workers (map x.pubkey_to_address chain.operators_priv_keys)
