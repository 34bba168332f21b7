-- ===== src/Evm/Refused.antt =====
-- The withdrawals that the packer of an EVM client refuses.
use relayer_svc.Base.{
  ◌≡◌, refl, str_eq, false, Option, none, some, case_option, List, [], ◌∷◌, pos, ℤ,
}
use relayer_svc.Types.{err_parse}
use relayer_svc.Db.{Deposit}
use relayer_svc.Attempt.{◌>>=◌, or_raise}
use relayer_svc.Chain.{Bytes, default_native_token_address, set_string}
use relayer_svc.Evm.{Ethereum, Client, Wire, call_native_merkelized}
use relayer_svc.Evm.Data.{
  get_withdrawal_tx_data, pack_withdrawal, merkle_proof_parsing, withdraw_native_merkelized,
  tx_hash_to_bytes32,
}
use relayer_svc.Evm.Withdraw.{
  withdraw, run_withdraw, get_withdraw_func, prepare_native_merkelized, make_ready,
}

pack_withdrawal-native_merkelized :
    (eth : Ethereum) (d : Deposit) (amount : ℤ) (signature : Bytes) (proof : List Bytes)
    → pack_withdrawal eth withdraw_native_merkelized d amount signature proof ≡ none
unfolding pack_withdrawal
pack_withdrawal-native_merkelized eth d amount signature proof =
    eth.pack_unknown withdraw_native_merkelized
      (call_native_merkelized amount (eth.hex_to_address d.receiver)
        (tx_hash_to_bytes32 eth d.tx_hash) d.tx_nonce proof (signature ∷ []))
      refl

get_withdrawal_tx_data-native_merkelized :
    (eth : Ethereum) (d : Deposit) → get_withdrawal_tx_data eth withdraw_native_merkelized d ≡ none
unfolding get_withdrawal_tx_data
get_withdrawal_tx_data-native_merkelized eth d =
    rest (set_string d.withdrawal_amount) (eth.decode_hex d.signature)
      (merkle_proof_parsing eth d.merkle_proof)
  where
    rest :
        (amount : Option ℤ) (signature : Option Bytes) (proof : Option (List Bytes))
        → case_option amount none (λ a.
          case_option signature none
            (λ s. case_option proof none (pack_withdrawal eth withdraw_native_merkelized d a s)))
          ≡ none
    rest none signature proof = refl
    rest (some a) none proof = refl
    rest (some a) (some s) none = refl
    rest (some a) (some s) (some p) = pack_withdrawal-native_merkelized eth d a s p

-- A deposit of the native token with a merkle proof is never withdrawn: `Withdraw` fails before it asks
-- the nodes anything, since the contract has no function of the name that is packed.
pub withdraw-native_merkelized :
    (c : Client) (d : Deposit) (from : Bytes) (w : Wire)
    → d.withdrawal_token ≡ default_native_token_address
    → str_eq d.merkle_proof "" ≡ false
    → withdraw c d from w ≡ ((c.ethereum.address_text from, ("", pos 0, some err_parse)), w)
unfolding withdraw run_withdraw get_withdraw_func prepare_native_merkelized make_ready ◌>>=◌
    or_raise get_withdrawal_tx_data
withdraw-native_merkelized c d from w h k =
    rw (h, k, get_withdrawal_tx_data-native_merkelized c.ethereum d) refl
