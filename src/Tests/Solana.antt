-- ===== src/Tests/Solana.antt =====
-- A Solana client whose nodes answer, at a deposit of the native token.
use relayer_svc.Base.{refl, none, some, [], ◌∷◌, arith}
use relayer_svc.Db.{Deposit}
use relayer_svc.Chain.{default_native_token_address}
use relayer_svc.Solana.{Toolkit, Node, Client, Wire, account}
use relayer_svc.Solana.Withdraw.{withdraw}
use relayer_svc.Solana.Sends.{IsAccounted, withdraw-IsAccounted}
use relayer_svc.Tests.{first, once}

abbrev pub toolkit : Toolkit
toolkit = record {
  sha256 = λ b. 6 ∷ [];
  public_key_from_base58 = λ s. some (2 ∷ []);
  find_program_address = λ bs. some (3 ∷ []);
  decode_hex = λ s. some [];
  key_text = λ b. "key";
  unmarshal = λ b. none;
  sign_transaction = λ i b s. some "signature";
}

abbrev pub node : Node
node = record {
  account_info = λ n b. account (4 ∷ []);
  account_json = λ n b. none;
  latest_blockhash = λ n. some ((5 ∷ []), 100);
  send_and_confirm = λ n i. some "signature";
}

abbrev pub client : Client
client = record { toolkit = toolkit; node = node; bridge_id = "bridge"; retry_block = once }

abbrev pub quiet : Wire
quiet = record { sent = []; calls = 0 }

abbrev pub native : Deposit
native = record first {
  withdrawal_token = default_native_token_address;
  withdrawal_amount = "1000";
  signature = "0x01";
}

withdraw-IsAccounted_example :
    IsAccounted client native []
      (withdraw client native (8 ∷ []) quiet).0.1
      (withdraw client native (8 ∷ []) quiet).1.sent
withdraw-IsAccounted_example =
    withdraw-IsAccounted client native (8 ∷ []) 0 quiet refl (omega arith)
