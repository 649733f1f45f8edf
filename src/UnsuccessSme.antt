-- ===== src/UnsuccessSme.antt =====
-- UnsuccessSME and UnsuccessSMEs of pdu/UnsuccessSME.go.
pub mod RoundTrip
use gosmpp.Prelude.{ℕ, List, [], ◌∷◌, ◌++◌, Option, none, some}
use gosmpp.Outcome.{Bytes, Error, Reader, pure, ◌>>=◌, writes}
use gosmpp.Buffer.{read_int, write_int}
use gosmpp.Globals.{Globals}
use gosmpp.Address
use gosmpp.Address.{Address, new_address, new_address_with_ton_npi}
use gosmpp.Batch.{read_batch, write_batch}

pub record UnsuccessSme : Type 0 where
  pub address : Address
  pub error_status_code : ℕ

unfoldable pub new_unsuccess_sme : Globals → UnsuccessSme
new_unsuccess_sme g = record { address = new_address g; error_status_code = 0 }

unfoldable pub set_error_status_code : ℕ → UnsuccessSme → UnsuccessSme
set_error_status_code v c = record c { error_status_code = v }

store_address : ℕ → UnsuccessSme → Address × Option Error → UnsuccessSme × Option Error
store_address status c (a, none) = (set_error_status_code status (record c { address = a }), none)
store_address status c (a, some e) = (record c { address = a }, some e)

unfoldable pub new_unsuccess_sme_with_addr : Globals → Bytes → ℕ → UnsuccessSme × Option Error
unfolding store_address
new_unsuccess_sme_with_addr g addr status =
    let c : UnsuccessSme = new_unsuccess_sme g in
    store_address status c (Address.set_address addr c.address)

unfoldable pub new_unsuccess_sme_with_ton_npi : ℕ → ℕ → ℕ → UnsuccessSme
new_unsuccess_sme_with_ton_npi ton npi status = record {
  address = new_address_with_ton_npi ton npi;
  error_status_code = status;
}

unfoldable pub unmarshal : Reader UnsuccessSme
unmarshal = do
  address ← Address.unmarshal
  st ← read_int
  pure (record { address = address; error_status_code = st })

unfoldable pub marshal : UnsuccessSme → Bytes
marshal c = writes (Address.marshal c.address ∷ write_int c.error_status_code ∷ [])

pub record UnsuccessSmes : Type 0 where
  pub l : List UnsuccessSme

abbrev pub new_unsuccess_smes : UnsuccessSmes
new_unsuccess_smes = record { l = [] }

unfoldable pub add : List UnsuccessSme → UnsuccessSmes → UnsuccessSmes
add us c = record c { l = c.l ++ us }

unfoldable pub unmarshal_all : Reader UnsuccessSmes
unmarshal_all = do l ← read_batch unmarshal; pure (record { l = l })

unfoldable pub marshal_all : UnsuccessSmes → Bytes
marshal_all c = write_batch marshal c.l
