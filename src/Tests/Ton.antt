-- ===== src/Tests/Ton.antt =====
-- A TON client whose nodes answer, at a deposit of a jetton without an amount.
use relayer_svc.Base.{ℕ, ◌≡◌, ◌⊎◌, true, Option, some, List, [], ◌∷◌}
use relayer_svc.Db.{Deposit}
use relayer_svc.Ton.{Toolkit, Node, Client, Wire}
use relayer_svc.Ton.Withdraw.{withdraw, withdrawal_message}
use relayer_svc.Ton.Sends.{IsAccepted, is_none, lacks_body, sent-withdraw_message}
use relayer_svc.Evm.Sends.{IsFailure}
use relayer_svc.Tests.{first}

abbrev pub toolkit : Toolkit
toolkit = record {
  build = λ xs. some (1 ∷ []);
  parse_addr = λ s. some (2 ∷ []);
  address_text = λ b. "addr";
  decode_hex = λ s. some (3 ∷ []);
  encode_hex = λ b. "09";
  keccak256 = λ b. b;
}

abbrev pub node : Node
node = record {
  masterchain_info = λ n. some 100;
  run_int = λ n b a m xs. some (4 ∷ []);
  run_address = λ n b a m xs. some (5 ∷ []);
  is_active = λ n b a. some true;
  send_many_wait_tx_hash = λ n s m. some (9 ∷ []);
}

abbrev pub client : Client
client = record { toolkit = toolkit; node = node; bridge_contract_address = 7 ∷ [] }

abbrev pub quiet : Wire
quiet = record { sent = []; calls = 0 }

abbrev jetton : Deposit
jetton = record first { withdrawal_token = "token"; withdrawal_amount = ""; signature = "0x01" }

sent-withdraw_message_example :
    (IsFailure (withdraw client jetton (8 ∷ []) quiet).0.1
      × ((withdraw client jetton (8 ∷ []) quiet).1.sent ≡ []))
    ⊎ ((body : Option (List ℕ)) × (is_none body ≡ lacks_body jetton)
        × ((withdraw client jetton (8 ∷ []) quiet).1.sent ≡ withdrawal_message client body ∷ [])
        × IsAccepted client
            (withdrawal_message client body)
            (withdraw client jetton (8 ∷ []) quiet).0.1)
sent-withdraw_message_example = sent-withdraw_message client jetton (8 ∷ []) quiet
