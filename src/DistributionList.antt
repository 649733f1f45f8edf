-- ===== src/DistributionList.antt =====
-- DistributionList of pdu/DistributionList.go.
pub mod RoundTrip
use gosmpp.Prelude.{ℕ, [], ltb, if◌then◌else◌, length, Option, none, some}
use gosmpp.Outcome.{Bytes, Error, name_too_long, Reader, pure, ◌>>=◌}
use gosmpp.Buffer.{read_c_string, write_c_string}

pub record DistributionList : Type 0 where
  pub name : Bytes

abbrev pub zero_distribution_list : DistributionList
zero_distribution_list = record { name = [] }

-- data.SM_DL_NAME_LEN
abbrev pub sm_dl_name_len : ℕ
sm_dl_name_len = 21

unfoldable pub set_name : Bytes → DistributionList → DistributionList × Option Error
set_name name c =
    if ltb sm_dl_name_len (length name)
    then (c, some name_too_long)
    else (record c { name = name }, none)

unfoldable pub new_distribution_list : Bytes → DistributionList × Option Error
unfolding set_name
new_distribution_list name = set_name name zero_distribution_list

unfoldable pub unmarshal : Reader DistributionList
unmarshal = do name ← read_c_string; pure (record { name = name })

unfoldable pub marshal : DistributionList → Bytes
marshal c = write_c_string c.name
