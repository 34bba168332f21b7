-- ===== src/Startup.antt =====
-- `Chains` and `Clients` of internal/core/chain/config/config.go, and the clients that the repository
-- keeps: internal/core/chain/repository/repo.go has each configure its child clients. Where the code
-- panics, there is no value.
pub mod Staffed
pub mod Supported
pub mod Served
use relayer_svc.Base.{
  ℕ, ℤ, pos, negsuc, String, str_eq, Bool, Option, none, some, List, [], ◌∷◌, map, length,
  if◌then◌else◌, case_option,
}
use relayer_svc.Chain.{Bytes, type_evm, type_solana, type_ton, type_text}
use relayer_svc.Chain.Config.{Chain, ◌>>=◌, decode_all}
use relayer_svc.Clients.{ChildClient, evm_child, solana_child, ton_child}
use relayer_svc.Evm
use relayer_svc.Evm.Startup as EvmStartup
use relayer_svc.Solana.Startup as SolanaStartup
use relayer_svc.Ton
use relayer_svc.Ton.Startup as TonStartup
use relayer_svc.Repository.{Client}

pub record Setup : Type 0 where
  pub evm : EvmStartup.Setup
  pub solana : SolanaStartup.Setup
  pub ton : TonStartup.Setup

-- A client before its children are configured.
pub data Parent : Type 0 where
  evm_parent : Evm.Client → EvmStartup.EvmChain → Parent
  solana_parent : SolanaStartup.SolanaChain → Parent
  ton_parent : Ton.Client → TonStartup.TonChain → Parent

-- The branches of the switch on the type of a chain.
unfoldable pub evm_client : Setup → Chain → Option Parent
unfolding EvmStartup.from_chain EvmStartup.new_bridge_client
evm_client x c = do
  chain ← EvmStartup.from_chain x.evm c
  client ← EvmStartup.new_bridge_client x.evm chain
  some (evm_parent client chain)

unfoldable pub solana_client : Setup → Chain → Option Parent
unfolding SolanaStartup.from_chain
solana_client x c = do chain ← SolanaStartup.from_chain x.solana c; some (solana_parent chain)

unfoldable pub ton_client : Setup → Chain → Option Parent
unfolding TonStartup.from_chain TonStartup.new_bridge_client
ton_client x c = do
  chain ← TonStartup.from_chain x.ton c
  client ← TonStartup.new_bridge_client x.ton chain
  some (ton_parent client chain)

unfoldable pub new_client : Setup → Chain → Option Parent
unfolding evm_client solana_client ton_client
new_client x c =
    if str_eq c.chain_type (type_text type_solana)
    then solana_client x c
    else if str_eq c.chain_type (type_text type_ton)
    then ton_client x c
    else if str_eq c.chain_type (type_text type_evm)
    then evm_client x c
    else none

-- `Chains`, of the decoded list, which may not be empty.
unfoldable pub chains : List Chain → Option (List Chain)
chains [] = none
chains (c ∷ cs) = some (c ∷ cs)

-- `Clients`
unfoldable pub clients : Setup → List Chain → Option (List Parent)
unfolding new_client chains decode_all
clients x cs = do configured ← chains cs; decode_all (new_client x) configured

-- The program that `SetProgramID` wrote last, after the one that it held.
unfoldable pub program_id : Bytes → List Parent → Bytes
program_id program [] = program
program_id program (solana_parent chain ∷ ps) = program_id chain.bridge_address ps
program_id program (evm_parent client chain ∷ ps) = program_id program ps
program_id program (ton_parent client chain ∷ ps) = program_id program ps

-- A client with its children.
pub record Configured : Type 0 where
  pub chain_id : String
  pub workers : ℤ
  pub children : List ChildClient

-- `ConfigureChildClients`
unfoldable pub configure : Setup → Bytes → Parent → Option Configured
unfolding EvmStartup.child_signers SolanaStartup.child_signers TonStartup.child_signers
    SolanaStartup.new_bridge_client
configure x program (evm_parent client chain) = do
  signers ← EvmStartup.child_signers x.evm chain
  some (record {
    chain_id = chain.id;
    workers = chain.workers;
    children = map (evm_child client) signers;
  })
configure x program (solana_parent chain) = do
  signers ← SolanaStartup.child_signers chain
  some (record {
    chain_id = chain.id;
    workers = chain.workers;
    children = map (solana_child (SolanaStartup.new_bridge_client x.solana program chain)) signers;
  })
configure x program (ton_parent client chain) = do
  signers ← TonStartup.child_signers x.ton chain
  some (record {
    chain_id = chain.id;
    workers = chain.workers;
    children = map (ton_child client) signers;
  })

-- The clients of the configuration with their children, as `runService` hands them to the repository.
unfoldable pub start_clients : Setup → List Chain → Option (List Configured)
unfolding clients configure program_id decode_all
start_clients x cs = do
  parents ← clients x cs
  decode_all (configure x (program_id [] parents)) parents

-- What the repository answers about a client: `WorkersCount`, and how many children it has. A client
-- that was configured has no negative number of workers.
unfoldable pub repository_client : Configured → Client
repository_client c = record {
  chain_id = c.chain_id;
  workers_count = elim c.workers [ pos n ↦ n | negsuc n ↦ 0 ];
  child_clients = length c.children;
}
