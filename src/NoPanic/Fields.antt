-- ===== src/NoPanic/Fields.antt =====
-- The fields of the PDUs: addresses, lists with a count, headers and optional parameters.
use gosmpp.Prelude.{ℕ, zero, suc, ◌==◌, Bool-cases, inl, inr, refl, some}
use gosmpp.Outcome.{Reader}
use gosmpp.Buffer.{is_negative16}
use gosmpp.Buffer.Safety.{
  Safe, Safe-pure, Safe-err, Safe-bind, byte-Safe, n-Safe, short-Safe, int-Safe, c_string-Safe,
}
use gosmpp.Batch.{read_entries, read_batch}
use gosmpp.Address
use gosmpp.AddressRange
use gosmpp.DistributionList
use gosmpp.DestinationAddress
use gosmpp.DestinationAddress.{
  DestinationAddress, sm_dest_sme_address, sm_dest_dl_name, new_destination_address,
}
use gosmpp.UnsuccessSme
use gosmpp.Header
use gosmpp.Tlv
use gosmpp.Tlv.{read_value}
use gosmpp.Base.{Options, store, stored, option_field}

pub header-Safe : Safe Header.unmarshal
unfolding Header.unmarshal
header-Safe =
    Safe-bind _ int-Safe
      λ _. Safe-bind _ int-Safe λ _. Safe-bind _ int-Safe λ _. Safe-bind _ int-Safe λ _. Safe-pure _

pub address-Safe : Safe Address.unmarshal
unfolding Address.unmarshal
address-Safe =
    Safe-bind _ byte-Safe λ _. Safe-bind _ byte-Safe λ _. Safe-bind _ c_string-Safe λ _. Safe-pure _

pub address_range-Safe : Safe AddressRange.unmarshal
unfolding AddressRange.unmarshal
address_range-Safe =
    Safe-bind _ byte-Safe λ _. Safe-bind _ byte-Safe λ _. Safe-bind _ c_string-Safe λ _. Safe-pure _

list-Safe : Safe DistributionList.unmarshal
unfolding DistributionList.unmarshal
list-Safe = Safe-bind _ c_string-Safe λ _. Safe-pure _

entries-Safe {ℓ} : {A : Type ℓ} (m : Reader A) (n : ℕ) → Safe m → Safe (read_entries m n)
unfolding read_entries
entries-Safe m zero h = Safe-pure _
entries-Safe m (suc n) h = Safe-bind _ h λ a. Safe-bind _ (entries-Safe m n h) λ l. Safe-pure _

batch-Safe {ℓ} : {A : Type ℓ} (m : Reader A) → Safe m → Safe (read_batch m)
unfolding read_batch
batch-Safe m h = Safe-bind _ byte-Safe λ n. entries-Safe m n h

destination-Safe : (c : DestinationAddress) → Safe (DestinationAddress.unmarshal c)
unfolding DestinationAddress.unmarshal
destination-Safe c = Safe-bind _ byte-Safe λ flag. elim (Bool-cases (flag == sm_dest_sme_address)) [
  | inl e ↦ rw e (Safe-bind _ address-Safe λ _. Safe-pure _)
  | inr e ↦ elim (Bool-cases (flag == sm_dest_dl_name)) [
    | inl e' ↦ rw (e, e') (Safe-bind _ list-Safe λ _. Safe-pure _)
    | inr e' ↦ rw (e, e') (Safe-err _ refl)
  ]
]

pub destinations-Safe : Safe DestinationAddress.unmarshal_all
unfolding DestinationAddress.unmarshal_all
destinations-Safe =
    Safe-bind _ (batch-Safe _ (destination-Safe new_destination_address)) λ _. Safe-pure _

sme-Safe : Safe UnsuccessSme.unmarshal
unfolding UnsuccessSme.unmarshal
sme-Safe = Safe-bind _ address-Safe λ _. Safe-bind _ int-Safe λ _. Safe-pure _

pub smes-Safe : Safe UnsuccessSme.unmarshal_all
unfolding UnsuccessSme.unmarshal_all
smes-Safe = Safe-bind _ (batch-Safe _ sme-Safe) λ _. Safe-pure _

value-Safe : (ln : ℕ) → Safe (read_value ln)
unfolding read_value
value-Safe ln = elim (Bool-cases (is_negative16 ln)) [
  | inl e ↦ rw e (Safe-pure _)
  | inr e ↦ rw e (n-Safe ln)
]

field-Safe : Safe Tlv.unmarshal
unfolding Tlv.unmarshal
field-Safe =
    Safe-bind _ short-Safe
      λ _. Safe-bind _ short-Safe λ ln. Safe-bind _ (value-Safe ln) λ _. Safe-pure _

pub option_field-Safe : (m : Options) → Safe (option_field (some m))
unfolding option_field stored store
option_field-Safe m = Safe-bind _ field-Safe λ f. Safe-pure _
