-- ===== src/Tests/Startup.antt =====
-- A service that starts with one EVM chain.
use relayer_svc.Base.{◌≡◌, ◌≢◌, refl, pos, String, true, none, some, [], ◌∷◌, map, All}
use relayer_svc.Chain.{type_text}
use relayer_svc.Chain.Config.{Chain, text_value, decode_all, texts_hook}
use relayer_svc.Chain.Operators.{configure_child_clients, enough_keys}
use relayer_svc.Repository.{client, new_clients_repository, supports_chain}
use relayer_svc.Broadcaster.{Config, pick_child}
use relayer_svc.Broadcaster.Run.{run}
use relayer_svc.Clients.{evm_child}
use relayer_svc.Startup.{
  Setup, Configured, start_clients, repository_client, clients, chains, new_client, configure,
}
use relayer_svc.Startup.Staffed.{IsStaffed, start_clients-IsStaffed}
use relayer_svc.Startup.Supported.{is_supported, is_among, start_clients-supports}
use relayer_svc.Startup.Served.{IsServed, IsServed-pick_child}
use relayer_svc.Evm.Startup as EvmStartup
use relayer_svc.Tests.{config, once}
use relayer_svc.Tests.Evm as Evm
use relayer_svc.Tests.Solana as Solana
use relayer_svc.Tests.Ton as Ton

abbrev setup : Setup
setup = record {
  evm = record {
    ethereum_client = λ v. some "rpc";
    ethereum_address = λ v. some (7 ∷ []);
    number = λ n. some n;
    hex_to_ecdsa = λ s. some (1 ∷ []);
    pubkey_to_address = λ k. 5 ∷ [];
    bridge_abi = some Evm.ethereum;
    new_bridge = λ a s. true;
    node = λ s t. Evm.node;
    retry_header = once;
    retry_subscription = once;
    retry_finalizer = once;
  };
  solana = record {
    decode_meta = λ v. none;
    number = λ n. some n;
    wallet_from_base58 = λ s. none;
    main_net_beta_ws = "main";
    test_net_ws = "test";
    connect = λ s. true;
    toolkit = λ b. Solana.toolkit;
    public_key_from_base58 = λ s. none;
    node = λ s t. Solana.node;
    retry_block = once;
  };
  ton = record {
    decode_rpc = λ m. none;
    number = λ n. some n;
    parse_addr = λ s. none;
    decode_hex = λ s. none;
    add_connections = λ s. true;
    get_config = λ s. true;
    wallet_from_private_key = λ k. none;
    toolkit = Ton.toolkit;
    node = λ r. Ton.node;
  };
}

abbrev eth_chain : Chain
eth_chain = record {
  id = "eth";
  chain_type = "EVM";
  rpc = text_value "rpc";
  bridge_addresses = text_value "0x07";
  operators_private_keys = "a" ∷ "b" ∷ [];
  ws_timeout = pos 10;
  ws_rpc = text_value "ws";
  workers = pos 1;
  gas_price_multiplier = pos 110;
  meta = text_value "";
}

abbrev eth_client : Configured
eth_client = record {
  chain_id = "eth";
  workers = pos 1;
  children = evm_child Evm.client ((5 ∷ []) ∷ (5 ∷ []) ∷ []) ∷ [];
}

started : start_clients setup (eth_chain ∷ []) ≡ some (eth_client ∷ [])
unfolding start_clients clients chains new_client configure EvmStartup.new_bridge_client
    EvmStartup.child_signers EvmStartup.decode EvmStartup.evm_hooks texts_hook decode_all
    enough_keys configure_child_clients type_text
started = refl

start_clients-IsStaffed_example : All IsStaffed (eth_client ∷ [])
start_clients-IsStaffed_example =
    start_clients-IsStaffed setup (eth_chain ∷ []) (eth_client ∷ []) started

start_clients-supports_example :
    (eth_chain ∷ [] ≢ [])
    × All (λ c. is_supported c ≡ true) (eth_chain ∷ [])
    × ((id : String)
        → supports_chain (new_clients_repository (repository_client eth_client ∷ [])) id
          ≡ is_among id ("eth" ∷ []))
start_clients-supports_example =
    start_clients-supports setup (eth_chain ∷ []) (eth_client ∷ []) started

abbrev running : Config
running = record config {
  clients = new_clients_repository (map repository_client (eth_client ∷ []));
}

pickable : pick_child running "eth" ≡ none
unfolding pick_child client repository_client new_clients_repository
pickable = refl

IsServed-pick_child_example : IsServed "eth" (run running.clients)
IsServed-pick_child_example =
    IsServed-pick_child setup (eth_chain ∷ []) (eth_client ∷ []) running "eth" started refl pickable
