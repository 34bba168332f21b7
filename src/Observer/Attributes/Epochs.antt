-- ===== src/Observer/Attributes/Epochs.antt =====
-- The attributes of an epoch.
use relayer_svc.Base.{String, ◌≡◌, refl, some, List, [], ◌∷◌}
use relayer_svc.Types.{ok, epoch_failed}
use relayer_svc.Db.{Epoch}
use relayer_svc.Observer.Numbers.{parse_uint, parse_bool}
use relayer_svc.Observer.Attributes.{Attribute, parsed, read_all, read_epoch, parse_updated_epochs}

-- The attributes that announce an epoch, with its numbers as texts.
abbrev pub announced : Epoch → String → String → String → String → List Attribute
announced e id start end mode =
    record { key = "epoch_id"; value = id }
    ∷ record { key = "chain_id"; value = e.chain_id }
    ∷ record { key = "epoch_signature"; value = e.signature }
    ∷ record { key = "epoch_signer"; value = e.signer }
    ∷ record { key = "epoch_start_time"; value = start }
    ∷ record { key = "epoch_end_time"; value = end }
    ∷ record { key = "epoch_nonce"; value = e.nonce }
    ∷ record { key = "epoch_signature_mode"; value = mode }
    ∷ []

-- The epoch that its attributes announce, with texts that stand for its numbers and its mode, is read
-- back, with the status that a new epoch has.
pub parse_updated_epochs-announced :
    (e : Epoch) (id start end mode : String)
    → parse_uint 32 id ≡ some e.id
    → parse_uint 64 start ≡ some e.start_time
    → parse_uint 64 end ≡ some e.end_time
    → parse_bool mode ≡ some e.signature_mode
    → parse_updated_epochs (announced e id start end mode) ≡ ok (record e { status = epoch_failed })
unfolding parse_updated_epochs read_all read_epoch parsed
parse_updated_epochs-announced e id start end mode a b c d = rw (a, b, c, d) refl
