-- ===== src/DestinationAddress/RoundTrip.antt =====
-- The two Marshal and Unmarshal methods of pdu/DestinationAddress.go.
use gosmpp.Prelude.{
  ◌<◌, ◌==◌, List, [], ◌∷◌, All, length, map, if◌then◌else◌, Bool-cases, inl, inr, append-nil,
}
use gosmpp.Outcome.{Decodes, Decodes-bind, Decodes-last}
use gosmpp.Buffer.RoundTrip.{NoNul, byte-Decodes}
use gosmpp.Buffer.Consumption.{Consumes, Consumes-bind, Consumes-pure, Consumes-err, byte-Consumes}
use gosmpp.Batch.{batch-Decodes, batch-Consumes}
use gosmpp.Address.RoundTrip.{address-Decodes, address-Consumes}
use gosmpp.DistributionList.RoundTrip.{list-Decodes, list-Consumes}
use gosmpp.DestinationAddress.{
  DestinationAddress, DestinationAddresses, unmarshal, marshal, unmarshal_all, marshal_all,
  new_destination_address, sm_dest_dl_name, sm_dest_sme_address, set_address, set_distribution_list,
}

-- What a destination says on the wire: the list for the list flag, and the address for any other.
abbrev pub canonical : DestinationAddress → DestinationAddress
canonical c =
    if c.dest_flag == sm_dest_dl_name
    then set_distribution_list c.dl new_destination_address
    else set_address c.address new_destination_address

abbrev pub Sendable : DestinationAddress → Type 0
Sendable c = NoNul c.address.address × NoNul c.dl.name

pub destination-Decodes :
    (c : DestinationAddress)
    → Sendable c
    → Decodes (unmarshal new_destination_address) (marshal c) (canonical c)
unfolding unmarshal marshal set_address set_distribution_list
destination-Decodes c h = elim (Bool-cases (c.dest_flag == sm_dest_dl_name)) [
  | inl e ↦
      rw e
        (Decodes-bind _ (byte-Decodes _) (rw append-nil (Decodes-last _ (list-Decodes c.dl h.1))))
  | inr e ↦ rw e (
      Decodes-bind _ (byte-Decodes _)
        (rw append-nil (Decodes-last _ (address-Decodes c.address h.0))))
]

pub destination-Consumes : (c : DestinationAddress) → Consumes (unmarshal c)
unfolding unmarshal
destination-Consumes c = Consumes-bind _ byte-Consumes λ flag.
    elim (Bool-cases (flag == sm_dest_sme_address)) [
      | inl e ↦ rw e (Consumes-bind _ address-Consumes λ _. Consumes-pure _)
      | inr e ↦ elim (Bool-cases (flag == sm_dest_dl_name)) [
        | inl e' ↦ rw (e, e') (Consumes-bind _ list-Consumes λ _. Consumes-pure _)
        | inr e' ↦ rw (e, e') (Consumes-err _)
      ]
    ]

module _ (c : DestinationAddresses) where
  -- Fewer than 256 destinations without zero bytes in their strings are read back in order, each
  -- as what its flag says: a distribution list for the list flag, and an address for any other.
  pub destinations-Decodes :
      length c.l < 256
      → All Sendable c.l
      → Decodes unmarshal_all (marshal_all c) (record { l = map canonical c.l })
  unfolding unmarshal_all marshal_all
  destinations-Decodes short h =
      Decodes-last _ (batch-Decodes _ marshal canonical c.l short (each c.l h))
    where
      each :
          (l : List DestinationAddress)
          → All Sendable l
          → All (λ d. Decodes (unmarshal new_destination_address) (marshal d) (canonical d)) l
      each [] h = tt
      each (d ∷ l) (h, hs) = (destination-Decodes d h, each l hs)

pub destinations-Consumes : Consumes unmarshal_all
unfolding unmarshal_all
destinations-Consumes =
    Consumes-bind _ (batch-Consumes _ (destination-Consumes new_destination_address))
      λ _. Consumes-pure _
