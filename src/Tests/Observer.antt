-- ===== src/Tests/Observer.antt =====
-- The observer on one empty block.
use relayer_svc.Base.{
  ℕ, ◌+◌, ◌≤◌, ◌<◌, ◌≡◌, refl, true, false, some, [], ◌∷◌, arith, ◌>>=◌, to_uint64,
}
use relayer_svc.Types.{ok}
use relayer_svc.Db.{Epoch, empty_epoch}
use relayer_svc.Env.{World}
use relayer_svc.Postgres.Blocks.{update_latest_block_id}
use relayer_svc.Postgres.{exec}
use relayer_svc.Observer.Numbers.{parse_uint, parse_bool}
use relayer_svc.Observer.Attributes.{DepositKeys, parse_updated_epochs}
use relayer_svc.Observer.Attributes.Epochs.{announced, parse_updated_epochs-announced}
use relayer_svc.Observer.{
  Feed, get_current_height, wait_for_block_distance, fetch_block_events, observe_block,
  observe_deposits, read_block,
}
use relayer_svc.Observer.Loop.{
  Observing, over, ticks, tick, tick_at, store_and_visit, visit, after_block, advance,
}
use relayer_svc.Observer.Loop.Heights.{IsForward, ticks-IsForward}
use relayer_svc.Observer.Waiting.{
  ends_wait, world_after, wait_for_block_distance-once, wait_for_block_distance-first,
}
use relayer_svc.Tests.{calm, config, idle, empty_world, once}

abbrev tenth : Epoch
tenth = record empty_epoch { id = 10; chain_id = "eth"; start_time = 5; signature_mode = true }

ten : parse_uint 32 "10" ≡ some 10
unfolding parse_uint
ten = refl

five : parse_uint 64 "5" ≡ some 5
unfolding parse_uint
five = refl

zero_text : parse_uint 64 "0" ≡ some 0
unfolding parse_uint
zero_text = refl

yes : parse_bool "true" ≡ some true
unfolding parse_bool
yes = refl

parse_updated_epochs-announced_example :
    parse_updated_epochs (announced tenth "10" "5" "0" "true") ≡ ok tenth
parse_updated_epochs-announced_example =
    parse_updated_epochs-announced tenth "10" "5" "0" "true" ten five zero_text yes

abbrev keys : DepositKeys
keys = record {
  deposit_tx_hash = "1";
  deposit_nonce = "2";
  deposit_chain_id = "3";
  deposit_amount = "4";
  deposit_token = "5";
  deposit_block = "6";
  withdrawal_amount = "7";
  depositor = "8";
  receiver = "9";
  withdrawal_chain_id = "10";
  withdrawal_tx_hash = "11";
  withdrawal_token = "12";
  signature = "13";
  is_wrapped = "14";
  commission_amount = "15";
  merkle_proof = "16";
  epoch_id = "17";
}

abbrev quiet : Feed
quiet = record {
  block_results = λ n h. some (record { txs_results = []; begin_block_events = [] });
  retry_height = once;
  retry_block = once;
  keys = keys;
  block_distance = 2;
}

abbrev at_five : Observing
at_five = record { service = idle; start_height = 5; fetched = [] }

abbrev at_six : Observing
at_six = record {
  service = record idle { world = record empty_world { calls = 4 } };
  start_height = 6;
  fetched = 5 ∷ [];
}

one_round : ticks 1 1 calm quiet config at_five ≡ over at_six
unfolding ticks tick tick_at get_current_height wait_for_block_distance store_and_visit exec visit
    update_latest_block_id fetch_block_events read_block after_block advance observe_block
    observe_deposits ◌>>=◌ to_uint64
one_round = refl

ticks-IsForward_example : IsForward at_six × (6 ≤ 5 + 1)
ticks-IsForward_example =
    ticks-IsForward 1 1 calm quiet config at_five at_six (omega arith) (tt, tt) one_round

abbrev looked : World
looked = record empty_world { calls = 1 }

height_nine : get_current_height calm quiet empty_world ≡ (ok 9, looked)
unfolding get_current_height to_uint64
height_nine = refl

wait_for_block_distance-once_example :
    (9 + 2 ≤ 9 → wait_for_block_distance 1 calm quiet 9 empty_world ≡ (true, looked))
    × (9 < 9 → wait_for_block_distance 1 calm quiet 9 empty_world ≡ (true, looked))
    × (9 ≤ 9 → 9 < 9 + 2 → wait_for_block_distance 1 calm quiet 9 empty_world ≡ (false, looked))
wait_for_block_distance-once_example =
    wait_for_block_distance-once calm quiet 9 9 empty_world looked height_nine (omega arith)
      (omega arith) (omega arith)

far_enough :
    ends_wait quiet 5 (get_current_height calm quiet (world_after calm quiet 0 empty_world)).0
    ≡ true
unfolding get_current_height to_uint64
far_enough = refl

-- No answer comes before the first.
none_before :
    (k : ℕ)
    → k < 0
    → ends_wait quiet 5 (get_current_height calm quiet (world_after calm quiet k empty_world)).0
      ≡ false
none_before k l = absurd (omega (arith, l))

wait_for_block_distance-first_example :
    ((fuel : ℕ)
      → 0 < fuel
      → wait_for_block_distance fuel calm quiet 5 empty_world
        ≡ (true, world_after calm quiet 1 empty_world))
    × ((fuel : ℕ) → fuel ≤ 0 → (wait_for_block_distance fuel calm quiet 5 empty_world).0 ≡ false)
wait_for_block_distance-first_example =
    wait_for_block_distance-first calm quiet 5 0 empty_world none_before far_enough
