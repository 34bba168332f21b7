-- ===== src/Ton/Sends.antt =====
-- What the TON client sends for a withdrawal.
use relayer_svc.Base.{
  ℕ, Option-cases, ℤ, pos, ◌≡◌, refl, ◌⊎◌, inl, inr, ap, ◌∙◌, arith, str_eq, Bool, true, false, not,
  ◌&&◌, Option, none, some, ◌∷◌, case_option, Bool-cases,
}
use relayer_svc.Types.{err_panic, err_parse, Result, ok, err, case_result}
use relayer_svc.Db.{Deposit}
use relayer_svc.Attempt.{Attempt, pure, ◌>>=◌, or_raise}
use relayer_svc.Chain.{Bytes, default_native_token_address, set_string}
use relayer_svc.Outbox.{ask}
use relayer_svc.Outbox.Ensures.{
  SendsNothing, sent-ask, Ensures, Ensures-bind, Ensures-or_raise, Ensures-raised, Ensures-weaken,
  Ensures-nothing, Ensures-pure,
}
use relayer_svc.Evm.Withdraw.{Sent}
use relayer_svc.Evm.Sends.{IsFailure}
use relayer_svc.Ton.{Message, Client, Wire, Toolkit}
use relayer_svc.Ton.Cells.{
  native_body, build_withdraw_native_cell, derive_jetton_address, or_nil, jetton_body,
  finish_jetton, build_withdraw_jetton_cell,
}
use relayer_svc.Ton.Withdraw.{
  send, withdrawal_message, send_withdrawal, Prepared, prepare_native, prepare_token, prepare,
  run_withdraw, withdraw,
}

abbrev pub is_none {ℓ} : {A : Type ℓ} → Option A → Bool
is_none o = case_option o true λ a. false

-- The token is no native one, and the amount is no number.
unfoldable pub lacks_body : Deposit → Bool
lacks_body d =
    not (str_eq d.withdrawal_token default_native_token_address)
    && is_none (set_string d.withdrawal_amount)

Ensures-native_body :
    (k : Toolkit) (d : Deposit) (network signature receiver : Bytes) (amount : ℤ)
    → Ensures (λ a. Unit) (native_body k d network signature receiver amount)
unfolding native_body
Ensures-native_body k d network signature receiver amount =
    Ensures-bind _ _ _ _ (Ensures-or_raise err_panic _) λ cell1 _. Ensures-raised err_panic _

Ensures-build_withdraw_native_cell :
    (c : Client) (d : Deposit)
    → Ensures
        (λ b. is_none (set_string d.withdrawal_amount) ≡ false)
        (build_withdraw_native_cell c d)
unfolding build_withdraw_native_cell
Ensures-build_withdraw_native_cell c d =
    Ensures-bind _ _ _ _ (Ensures-or_raise err_parse _) λ network _.
      Ensures-bind _ _ _ _ (Ensures-or_raise err_parse _) λ signature _.
        Ensures-bind _ _ _ _ (Ensures-or_raise err_parse _) λ receiver _.
          Ensures-bind _ _ _ _ (Ensures-or_raise err_parse (set_string d.withdrawal_amount))
            λ amount p.
              Ensures-weaken (λ _. Unit) _
                (native_body c.toolkit d network signature receiver amount) (λ b _. ap is_none p)
                (Ensures-native_body c.toolkit d network signature receiver amount)

sent-derive_jetton_address :
    (c : Client) (owner jetton : Bytes) → SendsNothing (derive_jetton_address c owner jetton)
unfolding derive_jetton_address ask ◌>>=◌ or_raise
sent-derive_jetton_address c owner jetton w = ground arith

Ensures-or_nil : {A : Type 0} (m : Attempt Wire A) → SendsNothing m → Ensures (λ a. Unit) (or_nil m)
unfolding or_nil
Ensures-or_nil m h w = (h w, tt)

Ensures-jetton_body :
    (k : Toolkit) (d : Deposit) (signature network jetton : Bytes) (bridge_jetton : Option Bytes)
    (receiver : Bytes) (amount : ℤ)
    → Ensures (λ a. Unit) (jetton_body k d signature network jetton bridge_jetton receiver amount)
unfolding jetton_body
Ensures-jetton_body k d signature network jetton bridge_jetton receiver amount =
    Ensures-bind _ _ _ _ (Ensures-or_raise err_panic _) λ cell2 _.
      Ensures-bind _ _ _ _ (Ensures-or_raise err_panic _) λ cell1 _. Ensures-raised err_panic _

Ensures-finish_jetton :
    (amount : Option ℤ) (f : ℤ → Attempt Wire Bytes)
    → ((a : ℤ) → Ensures (λ a. Unit) (f a))
    → Ensures (λ b. is_none b ≡ is_none amount) (finish_jetton amount f)
unfolding finish_jetton
Ensures-finish_jetton none f h = Ensures-pure _ none refl
Ensures-finish_jetton (some a) f h =
    Ensures-bind (λ _. Unit) _ (f a) _ (h a) λ body _. Ensures-pure _ (some body) refl

Ensures-build_withdraw_jetton_cell :
    (c : Client) (d : Deposit)
    → Ensures
        (λ b. is_none b ≡ is_none (set_string d.withdrawal_amount))
        (build_withdraw_jetton_cell c d)
unfolding build_withdraw_jetton_cell
Ensures-build_withdraw_jetton_cell c d =
    Ensures-bind _ _ _ _ (Ensures-or_raise err_parse _) λ signature _.
      Ensures-bind _ _ _ _ (Ensures-or_raise err_parse _) λ network _.
        Ensures-bind _ _ _ _ (Ensures-or_raise err_parse _) λ jetton _.
          Ensures-bind (λ _. Unit) _
            (or_nil (derive_jetton_address c c.bridge_contract_address jetton)) _
            (Ensures-or_nil (derive_jetton_address c c.bridge_contract_address jetton)
              (sent-derive_jetton_address c c.bridge_contract_address jetton))
            λ bridge_jetton _. Ensures-bind _ _ _ _ (Ensures-or_raise err_parse _) λ receiver _.
              Ensures-finish_jetton (set_string d.withdrawal_amount) _
                (Ensures-jetton_body c.toolkit d signature network jetton bridge_jetton receiver)

-- What a body that is ready lacks is as the deposit says.
abbrev IsReady : Deposit → Prepared → Type 0
IsReady d p = is_none p.0 ≡ lacks_body d

Ensures-block :
    (c : Client) (d : Deposit) (body : Option Bytes)
    → is_none body ≡ lacks_body d
    → Ensures {C = Message}
        (IsReady d)
        (ask c.node.masterchain_info >>= λ block. pure (body, pos block))
Ensures-block c d body h =
    Ensures-bind (λ _. Unit) (IsReady d) (ask c.node.masterchain_info) _
      (Ensures-nothing (ask c.node.masterchain_info) (sent-ask c.node.masterchain_info))
      λ block _. Ensures-pure (IsReady d) (body, pos block) h

Ensures-prepare_native :
    (c : Client) (d : Deposit)
    → str_eq d.withdrawal_token default_native_token_address ≡ true
    → Ensures (IsReady d) (prepare_native c d)
unfolding prepare_native
Ensures-prepare_native c d e =
    Ensures-bind (λ b. is_none (set_string d.withdrawal_amount) ≡ false) (IsReady d) _ _
      (Ensures-build_withdraw_native_cell c d)
      λ body h. Ensures-block c d (some body) (unfold lacks_body in ground (arith, e, h))

Ensures-prepare_token :
    (c : Client) (d : Deposit)
    → str_eq d.withdrawal_token default_native_token_address ≡ false
    → Ensures (IsReady d) (prepare_token c d)
unfolding prepare_token
Ensures-prepare_token c d e =
    Ensures-bind (λ b. is_none b ≡ is_none (set_string d.withdrawal_amount)) (IsReady d) _ _
      (Ensures-build_withdraw_jetton_cell c d)
      λ body h. Ensures-block c d body (unfold lacks_body in ground (arith, e, h))

Ensures-prepare : (c : Client) (d : Deposit) → Ensures (IsReady d) (prepare c d)
unfolding prepare
Ensures-prepare c d = elim (Bool-cases (str_eq d.withdrawal_token default_native_token_address)) [
  | inl e ↦ rw e (Ensures-prepare_native c d e)
  | inr e ↦ rw e (Ensures-prepare_token c d e)
]

sent-send_withdrawal :
    (c : Client) (body : Option Bytes) (signer : Bytes) (w : Wire)
    → (send_withdrawal c body signer w).1.sent ≡ withdrawal_message c body ∷ w.sent
unfolding send_withdrawal send ◌>>=◌ pure
sent-send_withdrawal c body signer w = ground arith

-- Success means that the wallet's node answered the message, with the hash that is reported.
abbrev pub IsAccepted : Client → Message → Sent → Type 0
IsAccepted c m (hash, block, e) =
    e ≡ none
    → (n : ℕ) × (signer bytes : Bytes) × (c.node.send_many_wait_tx_hash n signer m ≡ some bytes)
      × (hash ≡ c.toolkit.encode_hex bytes)

run_withdraw-IsAccepted :
    (c : Client) (p : Prepared) (signer : Bytes) (w : Wire)
    → IsAccepted c (withdrawal_message c p.0) (run_withdraw c signer (ok p, w)).0
unfolding run_withdraw send_withdrawal send ◌>>=◌ pure
run_withdraw-IsAccepted c p signer w h =
    elim (Option-cases (c.node.send_many_wait_tx_hash w.calls signer (withdrawal_message c p.0))) [
      | inl e ↦ absurd (ground (arith, e, h))
      | inr (bytes, e) ↦ (w.calls, signer, bytes, e, ground (arith, e))
    ]

-- `Withdraw` either fails and has sent nothing, or has sent one message, to the bridge, whose body is nil
-- exactly if the token is no native one and the amount is no number, and which was answered with the
-- reported hash if no error is reported.
pub sent-withdraw_message :
    (c : Client) (d : Deposit) (signer : Bytes) (w : Wire)
    → (IsFailure (withdraw c d signer w).0.1 × ((withdraw c d signer w).1.sent ≡ w.sent))
      ⊎ ((body : Option Bytes) × (is_none body ≡ lacks_body d)
          × ((withdraw c d signer w).1.sent ≡ withdrawal_message c body ∷ w.sent)
          × IsAccepted c (withdrawal_message c body) (withdraw c d signer w).0.1)
unfolding withdraw run_withdraw
sent-withdraw_message c d signer w = go (prepare c d w) (Ensures-prepare c d w)
  where
    go :
        (r : Result Prepared × Wire)
        → (r.1.sent ≡ w.sent) × case_result r.0 (IsReady d) (λ e. Unit {0})
        → (IsFailure (run_withdraw c signer r).0 × ((run_withdraw c signer r).1.sent ≡ w.sent))
          ⊎ ((body : Option Bytes) × (is_none body ≡ lacks_body d)
              × ((run_withdraw c signer r).1.sent ≡ withdrawal_message c body ∷ w.sent)
              × IsAccepted c (withdrawal_message c body) (run_withdraw c signer r).0)
    go (ok p, w') (s, h) = inr (
      p.0,
      h,
      sent-send_withdrawal c p.0 signer w' ∙ ap (λ x. withdrawal_message c p.0 ∷ x) s,
      run_withdraw-IsAccepted c p signer w',
    )
    go (err e, w') (s, h) = inl ((e, refl), s)
