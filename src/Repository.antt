-- ===== src/Repository.antt =====
-- internal/core/chain/repository/repo.go, and what the broadcaster asks of internal/core/chain's
-- `Client`. A child client is picked at random: its answers are the environment's, which may differ
-- from call to call, so only the number of children is kept.
use relayer_svc.Base.{
  ℕ, ◌≡◌, Bool, true, false, String, str_eq, eq_iff, arith, refl, Option, none, some, List, [], ◌∷◌,
  if◌then◌else◌, case_option,
}
use relayer_svc.Types.{Result, ok, err, err_chain_not_supported}

pub record Client : Type 0 where
  pub chain_id : String
  pub workers_count : ℕ
  pub child_clients : ℕ

abbrev pub Clients : Type 0
Clients = List (String × Client)

-- Assignment to a map.
put : String → Client → Clients → Clients
put id c [] = (id, c) ∷ []
put id c ((j, c') ∷ m) = if str_eq j id then (id, c) ∷ m else (j, c') ∷ put id c m

unfoldable pub find_client : String → Clients → Option Client
find_client id [] = none
find_client id ((j, c) ∷ m) = if str_eq j id then some c else find_client id m

fill : Clients → List Client → Clients
fill m [] = m
fill m (c ∷ cs) = fill (put c.chain_id c m) cs

-- `NewClientsRepository`
unfoldable pub new_clients_repository : List Client → Clients
unfolding fill put
new_clients_repository cs = fill [] cs

-- `Client`
unfoldable pub client : Clients → String → Result Client
unfolding find_client
client m id = case_option (find_client id m) (err err_chain_not_supported) ok

-- `SupportsChain`
unfoldable pub supports_chain : Clients → String → Bool
unfolding find_client
supports_chain m id = case_option (find_client id m) false (λ c. true)

find_client-put :
    (id : String) (c : Client) (j : String) (m : Clients)
    → find_client j (put id c m) ≡ (if str_eq id j then some c else find_client j m)
unfolding find_client put
find_client-put id c j [] = ground arith
find_client-put id c j ((i, c') ∷ m) =
    ground (arith, eq_iff i id, eq_iff i j, eq_iff id j, find_client-put id c j m)

-- The configured clients of a chain, the last one counting.
abbrev pub last_of : String → List Client → Option Client
last_of id [] = none
last_of id (c ∷ cs) =
    let later = last_of id cs in
    case_option later (if str_eq c.chain_id id then some c else none) some

find_client-fill :
    (id : String) (m : Clients) (cs : List Client)
    → find_client id (fill m cs) ≡ case_option (last_of id cs) (find_client id m) some
unfolding fill
find_client-fill id m [] = refl
find_client-fill id m (c ∷ cs) =
    ground (arith, find_client-put c.chain_id c id m, find_client-fill id (put c.chain_id c m) cs)

-- The repository answers for a chain with the last client configured for it, and supports the chains
-- that a client was configured for.
pub client-new_clients_repository :
    (id : String) (cs : List Client)
    → (client (new_clients_repository cs) id
        ≡ case_option (last_of id cs) (err err_chain_not_supported) ok)
      × (supports_chain (new_clients_repository cs) id
          ≡ case_option (last_of id cs) false (λ c. true))
unfolding client supports_chain new_clients_repository
client-new_clients_repository id cs =
    (rw (find_client-fill id [] cs) (ground arith), rw (find_client-fill id [] cs) (ground arith))
