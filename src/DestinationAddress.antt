-- ===== src/DestinationAddress.antt =====
-- DestinationAddress and DestinationAddresses of pdu/DestinationAddress.go: the destination flag
-- says whether the address or the distribution list is meant.
pub mod RoundTrip
use gosmpp.Prelude.{ℕ, Bool, not, List, [], ◌∷◌, ◌++◌, ◌==◌, if◌then◌else◌}
use gosmpp.Outcome.{Bytes, Reader, err, unrecognized_dest_flag, pure, ◌>>=◌, writes}
use gosmpp.Buffer.{read_byte, write_byte}
use gosmpp.Address
use gosmpp.Address.{Address, zero_address}
use gosmpp.DistributionList
use gosmpp.DistributionList.{DistributionList, zero_distribution_list}
use gosmpp.Batch.{read_batch, write_batch}

pub record DestinationAddress : Type 0 where
  pub dest_flag : ℕ
  pub address : Address
  pub dl : DistributionList

-- data.DFLT_DEST_FLAG, data.SM_DEST_SME_ADDRESS and data.SM_DEST_DL_NAME
abbrev pub dflt_dest_flag : ℕ
dflt_dest_flag = 0

abbrev pub sm_dest_sme_address : ℕ
sm_dest_sme_address = 1

abbrev pub sm_dest_dl_name : ℕ
sm_dest_dl_name = 2

abbrev pub new_destination_address : DestinationAddress
new_destination_address = record {
  dest_flag = dflt_dest_flag;
  address = zero_address;
  dl = zero_distribution_list;
}

unfoldable pub set_address : Address → DestinationAddress → DestinationAddress
set_address addr c = record c { dest_flag = sm_dest_sme_address; address = addr }

unfoldable pub set_distribution_list : DistributionList → DestinationAddress → DestinationAddress
set_distribution_list list c = record c { dest_flag = sm_dest_dl_name; dl = list }

unfoldable pub has_value : DestinationAddress → Bool
has_value c = not (c.dest_flag == dflt_dest_flag)

unfoldable pub is_address : DestinationAddress → Bool
is_address c = c.dest_flag == sm_dest_sme_address

unfoldable pub is_distribution_list : DestinationAddress → Bool
is_distribution_list c = c.dest_flag == sm_dest_dl_name

-- The branch of the switch on the flag that was read into `c`.
read_destination : DestinationAddress → Reader DestinationAddress
read_destination c =
    if c.dest_flag == sm_dest_sme_address
    then (do address ← Address.unmarshal; pure (record c { address = address }))
    else if c.dest_flag == sm_dest_dl_name
    then (do dl ← DistributionList.unmarshal; pure (record c { dl = dl }))
    else err (unrecognized_dest_flag c.dest_flag)

unfoldable pub unmarshal : DestinationAddress → Reader DestinationAddress
unfolding read_destination
unmarshal c = do flag ← read_byte; read_destination (record c { dest_flag = flag })

unfoldable pub marshal : DestinationAddress → Bytes
marshal c =
    if c.dest_flag == sm_dest_dl_name
    then writes (write_byte sm_dest_dl_name ∷ DistributionList.marshal c.dl ∷ [])
    else writes (write_byte sm_dest_sme_address ∷ Address.marshal c.address ∷ [])

pub record DestinationAddresses : Type 0 where
  pub l : List DestinationAddress

abbrev pub new_destination_addresses : DestinationAddresses
new_destination_addresses = record { l = [] }

unfoldable pub add : List DestinationAddress → DestinationAddresses → DestinationAddresses
add addresses c = record c { l = c.l ++ addresses }

-- The entries of the fresh slice are zero values.
unfoldable pub unmarshal_all : Reader DestinationAddresses
unfolding unmarshal
unmarshal_all = do l ← read_batch (unmarshal new_destination_address); pure (record { l = l })

unfoldable pub marshal_all : DestinationAddresses → Bytes
unfolding marshal
marshal_all c = write_batch marshal c.l
