-- ===== src/Broadcaster/Run.antt =====
-- `Run` of internal/core/broadcaster/broadcaster.go: the goroutines that it starts, with the loops over
-- the clients of the repository and over the workers of each. The order of a map is that of its list.
use relayer_svc.Base.{ℕ, zero, suc, ◌+◌, String, str_eq, Bool, false, ◌||◌, List, [], ◌∷◌, ◌++◌}
use relayer_svc.Repository.{Clients}

-- A goroutine, with the chain and the number of a worker.
pub data Goroutine : Type 0 where
  withdrawal_worker signers_worker : String → ℕ → Goroutine
  core_submitter : Goroutine

-- The loop over the workers that are left, from number `id` on.
unfoldable pub start_workers : String → ℕ → ℕ → List Goroutine
start_workers chain_id id zero = []
start_workers chain_id id (suc n) =
    withdrawal_worker chain_id id ∷ signers_worker chain_id id ∷ start_workers chain_id (id + 1) n

-- The loop over the clients.
unfoldable pub start_clients_workers : Clients → List Goroutine
unfolding start_workers
start_clients_workers [] = []
start_clients_workers ((chain_id, c) ∷ m) =
    start_workers chain_id 0 c.workers_count ++ start_clients_workers m

unfoldable pub run : Clients → List Goroutine
unfolding start_clients_workers
run m = start_clients_workers m ++ core_submitter ∷ []

-- Some worker of this kind serves the chain.
unfoldable pub serves_withdrawals : String → List Goroutine → Bool
serves_withdrawals id [] = false
serves_withdrawals id (withdrawal_worker j n ∷ gs) = str_eq j id || serves_withdrawals id gs
serves_withdrawals id (signers_worker j n ∷ gs) = serves_withdrawals id gs
serves_withdrawals id (core_submitter ∷ gs) = serves_withdrawals id gs

unfoldable pub serves_signers : String → List Goroutine → Bool
serves_signers id [] = false
serves_signers id (signers_worker j n ∷ gs) = str_eq j id || serves_signers id gs
serves_signers id (withdrawal_worker j n ∷ gs) = serves_signers id gs
serves_signers id (core_submitter ∷ gs) = serves_signers id gs
