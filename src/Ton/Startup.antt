-- ===== src/Ton/Startup.antt =====
-- `FromChain` and the hooks of internal/core/chain/ton/chain.go, and `NewBridgeClient` and
-- `ConfigureChildClients` of client.go. Where the code panics, there is no value.
use relayer_svc.Base.{ℤ, String, str_eq, Bool, ◌&&◌, Option, none, some, List, if◌then◌else◌}
use relayer_svc.Chain.{Bytes, type_ton, type_text}
use relayer_svc.Chain.Config.{
  Value, texts_value, map_value, Chain, ◌>>=◌, decode_all, text_hook, texts_hook,
}
use relayer_svc.Chain.Operators.{configure_child_clients, enough_keys}
use relayer_svc.Ton.{Toolkit, Node, Client}

pub record Rpc : Type 0 where
  pub is_testnet : Bool
  pub timeout : ℤ
  pub global_config_url : String

-- What figure and tonutils-go do when the service starts.
pub record Setup : Type 0 where
  -- figure's reading of a map as `RPC`, and of a number.
  pub decode_rpc : List (String × String) → Option Rpc
  pub number : ℤ → Option ℤ
  pub parse_addr : String → Option Bytes
  -- `hexutil.Decode`
  pub decode_hex : String → Option Bytes
  -- `AddConnectionsFromConfigUrl` and `GetConfigFromUrl` succeed.
  pub add_connections : String → Bool
  pub get_config : String → Bool
  -- `wallet.FromPrivateKey`
  pub wallet_from_private_key : Bytes → Option Bytes
  pub toolkit : Toolkit
  -- The nodes of the global configuration, with the timeout.
  pub node : Rpc → Node

pub record TonChain : Type 0 where
  pub id : String
  pub bridge_contract_address : Bytes
  pub rpc : Rpc
  pub workers : ℤ
  pub operators_private_keys : List Bytes

-- `addrHook`, `rpcHook` and `privateKeyHook`.
unfoldable pub addr_hook : Setup → Value → Option Bytes
unfolding text_hook
addr_hook x v = text_hook x.parse_addr v

unfoldable pub rpc_hook : Setup → Value → Option Rpc
rpc_hook x (map_value m) = x.decode_rpc m
rpc_hook x v = none

unfoldable pub private_key_hook : Setup → Value → Option (List Bytes)
unfolding texts_hook
private_key_hook x v = texts_hook x.decode_hex v

-- The fields that are decoded one after another.
unfoldable pub decode : Setup → Chain → Option TonChain
unfolding addr_hook rpc_hook private_key_hook
decode x c = do
  address ← addr_hook x c.bridge_addresses
  rpc ← rpc_hook x c.rpc
  keys ← private_key_hook x (texts_value c.operators_private_keys)
  workers ← x.number c.workers
  some (record {
    id = c.id;
    bridge_contract_address = address;
    rpc = rpc;
    workers = workers;
    operators_private_keys = keys;
  })

-- `FromChain`
unfoldable pub from_chain : Setup → Chain → Option TonChain
unfolding decode
from_chain x c =
    if str_eq c.chain_type (type_text type_ton)
    then (do
      chain ← decode x c
      if enough_keys chain.workers chain.operators_private_keys then some chain else none)
    else none

-- `NewBridgeClient`
unfoldable pub new_bridge_client : Setup → TonChain → Option Client
new_bridge_client x chain =
    if x.add_connections chain.rpc.global_config_url && x.get_config chain.rpc.global_config_url
    then some (record {
      toolkit = x.toolkit;
      node = x.node chain.rpc;
      bridge_contract_address = chain.bridge_contract_address;
    })
    else none

-- The wallets of the child clients.
unfoldable pub child_signers : Setup → TonChain → Option (List (List Bytes))
unfolding decode_all
child_signers x chain = do
  wallets ← decode_all x.wallet_from_private_key chain.operators_private_keys
  configure_child_clients chain.workers wallets
