-- ===== src/DistributionList/RoundTrip.antt =====
-- DistributionList.Marshal and DistributionList.Unmarshal of pdu/DistributionList.go.
use gosmpp.Outcome.{Decodes, Decodes-last}
use gosmpp.Buffer.RoundTrip.{c_string-Decodes, NoNul}
use gosmpp.Buffer.Consumption.{Consumes, Consumes-bind, Consumes-pure, c_string-Consumes}
use gosmpp.DistributionList.{DistributionList, unmarshal, marshal}

pub list-Decodes : (c : DistributionList) → NoNul c.name → Decodes unmarshal (marshal c) c
unfolding unmarshal marshal
list-Decodes c h = Decodes-last _ (c_string-Decodes _ h)

pub list-Consumes : Consumes unmarshal
unfolding unmarshal
list-Consumes = Consumes-bind _ c_string-Consumes λ _. Consumes-pure _
