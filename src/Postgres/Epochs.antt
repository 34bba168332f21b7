-- ===== src/Postgres/Epochs.antt =====
-- The signatures table seen as a map from identifiers to rows.
use mathlib.Core.Option
use relayer_svc.Base.{
  ◌≡◌, ◌↔◌, refl, true, Option, List, [], ◌∷◌, arith, if◌then◌else◌, eq_iff, ◌&&◌, ◌==◌, str_eq,
  Bool,
}
use relayer_svc.Types.{EpochStatus}
use relayer_svc.Db.{Epoch, SignatureIdentifier, epoch_identifier}
use relayer_svc.Postgres.{select, update_where}
use relayer_svc.Postgres.Signatures.{epoch_identifier_to_predicate, set_status}

-- The row of an identifier.
abbrev pub epoch_row : SignatureIdentifier → List Epoch → Option Epoch
epoch_row id = select (epoch_identifier_to_predicate id)

unfoldable pub same_identifier : SignatureIdentifier → SignatureIdentifier → Bool
same_identifier a b = a.id == b.id && str_eq a.chain_id b.chain_id && str_eq a.nonce b.nonce

pub same_identifier_iff : (a b : SignatureIdentifier) → (same_identifier a b ≡ true) ↔ (a ≡ b)
unfolding same_identifier
same_identifier_iff a b = ground (arith, eq_iff a.chain_id b.chain_id, eq_iff a.nonce b.nonce)

predicate_same :
    (id : SignatureIdentifier) (e : Epoch)
    → epoch_identifier_to_predicate id e ≡ same_identifier (epoch_identifier e) id
unfolding epoch_identifier_to_predicate same_identifier
predicate_same id e = refl

keeps_key :
    (status : EpochStatus) (e : Epoch) → epoch_identifier (set_status status e) ≡ epoch_identifier e
unfolding set_status
keeps_key status e = refl

-- Marking an identifier's rows changes its row alone.
pub epoch_row-update_where :
    (status : EpochStatus) (id j : SignatureIdentifier) (t : List Epoch)
    → epoch_row j (update_where (epoch_identifier_to_predicate id) (set_status status) t) ≡ (
        if same_identifier id j
        then Option.map (set_status status) (epoch_row j t)
        else epoch_row j t)
unfolding select update_where
epoch_row-update_where status id j [] = ground arith
epoch_row-update_where status id j (e ∷ t) = ground (
  arith,
  predicate_same id e,
  predicate_same j e,
  predicate_same j (set_status status e),
  keeps_key status e,
  same_identifier_iff (epoch_identifier e) id,
  same_identifier_iff (epoch_identifier e) j,
  same_identifier_iff id j,
  epoch_row-update_where status id j t,
)
