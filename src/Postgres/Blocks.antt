-- ===== src/Postgres/Blocks.antt =====
-- internal/db/postgres/blocks.go: the table `latest_block`, whose only row has id 1.
use relayer_svc.Base.{ℤ, Option, none, some, State}
use relayer_svc.Types.{Error, err_db, Result, ok, err}
use relayer_svc.Env.{Environment, World}
use relayer_svc.Postgres.{exec, query}

-- INSERT … ON CONFLICT (id) DO UPDATE.
unfoldable pub insert : Environment → ℤ → State World (Option Error)
insert env block = exec env λ w. record w { latest_block = some block }

found : Result (Option ℤ) → Result ℤ
found (ok (some id)) = ok id
found (ok none) = err err_db
found (err e) = err e

-- No row is an error.
unfoldable pub get_latest_block : Environment → World → Result ℤ × World
unfolding found
get_latest_block env w = let (r, w') = query env (λ v. v.latest_block) w in (found r, w')

updated : ℤ → Option ℤ → Option ℤ
updated block none = none
updated block (some _) = some block

-- An UPDATE: with no row it changes nothing.
unfoldable pub update_latest_block_id : Environment → ℤ → State World (Option Error)
unfolding updated
update_latest_block_id env block =
    exec env λ w. record w { latest_block = updated block w.latest_block }
