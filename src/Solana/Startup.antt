-- ===== src/Solana/Startup.antt =====
-- `FromChain` and `SolanaHooks` of internal/core/chain/solana/chain.go, and `NewBridgeClient` and
-- `ConfigureChildClients` of client.go. Where the code panics, there is no value.
use relayer_svc.Base.{ℕ, ℤ, String, str_eq, Bool, Option, none, some, List, if◌then◌else◌}
use relayer_svc.Retry.{Retrier}
use relayer_svc.Chain.{Bytes, type_solana, type_text}
use relayer_svc.Chain.Config.{Value, texts_value, Chain, ◌>>=◌, text_hook, texts_hook}
use relayer_svc.Chain.Operators.{configure_child_clients, enough_keys}
use relayer_svc.Solana.{Toolkit, Node, Client, Wire}

pub record Meta : Type 0 where
  pub bridge_id : String
  pub is_testnet : Bool

-- What figure, solana-go and retry-go do when the service starts.
pub record Setup : Type 0 where
  -- figure's reading of a value as `Meta`, and of a number.
  pub decode_meta : Value → Option Meta
  pub number : ℤ → Option ℤ
  -- `WalletFromPrivateKeyBase58`: a wallet is known by its public key.
  pub wallet_from_base58 : String → Option Bytes
  -- `rpc.MainNetBeta_WS`, `rpc.TestNet_WS`, and whether `ws.Connect` succeeds.
  pub main_net_beta_ws : String
  pub test_net_ws : String
  pub connect : String → Bool
  -- solana-go with the program of the bridge, and the nodes behind the endpoints.
  pub toolkit : Bytes → Toolkit
  pub public_key_from_base58 : String → Option Bytes
  pub node : String → String → Node
  pub retry_block : Retrier (Option (Bytes × ℕ) × Wire)

pub record SolanaChain : Type 0 where
  pub id : String
  pub rpc : String
  pub ws_rpc : String
  pub bridge_address : Bytes
  pub operators_wallets : List Bytes
  pub workers : ℤ
  pub ws_timeout : ℤ
  pub meta : Meta

-- `SolanaHooks`, for a client, which `rpc.New` makes of any endpoint, a key and wallets.
unfoldable pub client_hook : Value → Option String
unfolding text_hook
client_hook v = text_hook some v

unfoldable pub key_hook : Setup → Value → Option Bytes
unfolding text_hook
key_hook x v = text_hook x.public_key_from_base58 v

unfoldable pub wallets_hook : Setup → Value → Option (List Bytes)
unfolding texts_hook
wallets_hook x v = texts_hook x.wallet_from_base58 v

-- `rpc.MainNetBeta_WS`, unless the configuration is for the test net.
unfoldable pub ws_endpoint : Setup → Meta → String
ws_endpoint x m = if m.is_testnet then x.test_net_ws else x.main_net_beta_ws

-- The fields that are decoded one after another, and the connection.
unfoldable pub decode : Setup → Chain → Option SolanaChain
unfolding client_hook key_hook wallets_hook ws_endpoint
decode x c = do
  meta ← x.decode_meta c.meta
  rpc ← client_hook c.rpc
  bridge_address ← key_hook x c.bridge_addresses
  wallets ← wallets_hook x (texts_value c.operators_private_keys)
  ws_timeout ← x.number c.ws_timeout
  workers ← x.number c.workers
  if x.connect (ws_endpoint x meta)
      then some (record {
        id = c.id;
        rpc = rpc;
        ws_rpc = ws_endpoint x meta;
        bridge_address = bridge_address;
        operators_wallets = wallets;
        workers = workers;
        ws_timeout = ws_timeout;
        meta = meta;
      })
      else none

-- `FromChain`
unfoldable pub from_chain : Setup → Chain → Option SolanaChain
unfolding decode
from_chain x c =
    if str_eq c.chain_type (type_text type_solana)
    then (do
      chain ← decode x c
      if enough_keys chain.workers chain.operators_wallets then some chain else none)
    else none

-- `NewBridgeClient`, for the program that `SetProgramID` wrote last, which all clients share.
unfoldable pub new_bridge_client : Setup → Bytes → SolanaChain → Client
new_bridge_client x program chain = record {
  toolkit = x.toolkit program;
  node = x.node chain.rpc chain.ws_rpc;
  bridge_id = chain.meta.bridge_id;
  retry_block = x.retry_block;
}

-- The signers of the child clients.
unfoldable pub child_signers : SolanaChain → Option (List (List Bytes))
child_signers chain = configure_child_clients chain.workers chain.operators_wallets
