-- ===== src/Response/Answers.antt =====
-- The response of each PDU type of pdu/ that has one.
use gosmpp.Prelude.{ℕ, ◌+◌, ◌^◌, ◌≡◌, refl, ap, ◌∙◌, false, some, inl, inr, ◌⊎◌, sym}
use gosmpp.Globals.{Globals}
use gosmpp.Base.{new_base, set_command_id, set_sequence_number}
use gosmpp.Header.{set_sequence_number as set_header_sequence, assign_sequence_number}
use gosmpp.CommandId
use gosmpp.Packet.{Pdu, base_of, get_sequence_number}
use gosmpp.Factory.Typed.{IsTyped}
use gosmpp.Response.{can_response, get_response}
use gosmpp.Pdu.BindRequest.{BindingType, bind_id, receiver, transceiver, transmitter}
use gosmpp.Pdu.BindResp.{resp_id}
use gosmpp.Pdu.BindRequest
use gosmpp.Pdu.BindResp
use gosmpp.Pdu.CancelSm
use gosmpp.Pdu.CancelSmResp
use gosmpp.Pdu.DataSm
use gosmpp.Pdu.DataSmResp
use gosmpp.Pdu.DeliverSm
use gosmpp.Pdu.DeliverSmResp
use gosmpp.Pdu.EnquireLink
use gosmpp.Pdu.EnquireLinkResp
use gosmpp.Pdu.QuerySm
use gosmpp.Pdu.QuerySmResp
use gosmpp.Pdu.ReplaceSm
use gosmpp.Pdu.ReplaceSmResp
use gosmpp.Pdu.SubmitMulti
use gosmpp.Pdu.SubmitMultiResp
use gosmpp.Pdu.SubmitSm
use gosmpp.Pdu.SubmitSmResp
use gosmpp.Pdu.Unbind
use gosmpp.Pdu.UnbindResp

-- `r` answers `p`: with its sequence number, the response bit set in its command identifier, a
-- status of success, and no response of its own.
pub record Answers (r p : Pdu) : Type 0 where
  pub same_sequence : get_sequence_number r ≡ get_sequence_number p
  pub response_bit : (base_of r).header.command_id ≡ (base_of p).header.command_id + 2 ^ 31
  pub success : (base_of r).header.command_status ≡ 0
  pub typed : IsTyped r
  pub final : can_response r ≡ false

abbrev AnsweredBy : Globals → Pdu → Type 0
AnsweredBy g p = (r : Pdu) × ((get_response g p).0 ≡ some r) × Answers r p

resp_id-bind_id : (t : BindingType) → resp_id t ≡ bind_id t + 2 ^ 31
resp_id-bind_id receiver = refl
resp_id-bind_id transceiver = refl
resp_id-bind_id transmitter = refl

pub bind_request-AnsweredBy :
    (g : Globals) (c : BindRequest.BindRequest)
    → IsTyped (Pdu.bind_request c)
    → AnsweredBy g (Pdu.bind_request c)
unfolding get_response can_response get_sequence_number BindResp.new new_base set_command_id
    set_sequence_number set_header_sequence assign_sequence_number
bind_request-AnsweredBy g c (id, map) = (
  Pdu.bind_resp (BindResp.new g c).0,
  refl,
  record {
    same_sequence = refl;
    response_bit = resp_id-bind_id c.binding_type ∙ ap (λ (k : ℕ). k + 2 ^ 31) (sym id);
    success = refl;
    typed = (any c.binding_type, refl);
    final = refl;
  },
)
  where
    any :
        (t : BindingType)
        → (resp_id t ≡ CommandId.bind_transmitter_resp)
          ⊎ ((resp_id t ≡ CommandId.bind_transceiver_resp)
              ⊎ (resp_id t ≡ CommandId.bind_receiver_resp))
    any transmitter = inl refl
    any transceiver = inr (inl refl)
    any receiver = inr (inr refl)

pub cancel_sm-AnsweredBy :
    (g : Globals) (c : CancelSm.CancelSm)
    → IsTyped (Pdu.cancel_sm c)
    → AnsweredBy g (Pdu.cancel_sm c)
unfolding get_response can_response get_sequence_number CancelSmResp.new_from_req CancelSmResp.new
    new_base set_command_id set_sequence_number set_header_sequence assign_sequence_number
cancel_sm-AnsweredBy g c (id, map) = (
  Pdu.cancel_sm_resp (CancelSmResp.new_from_req g c).0,
  refl,
  record {
    same_sequence = refl;
    response_bit = ap (λ (k : ℕ). k + 2 ^ 31) (sym id);
    success = refl;
    typed = (refl, refl);
    final = refl;
  },
)

pub data_sm-AnsweredBy :
    (g : Globals) (c : DataSm.DataSm) → IsTyped (Pdu.data_sm c) → AnsweredBy g (Pdu.data_sm c)
unfolding get_response can_response get_sequence_number DataSmResp.new_from_req DataSmResp.new
    new_base set_command_id set_sequence_number set_header_sequence assign_sequence_number
data_sm-AnsweredBy g c (id, map) = (
  Pdu.data_sm_resp (DataSmResp.new_from_req g c).0,
  refl,
  record {
    same_sequence = refl;
    response_bit = ap (λ (k : ℕ). k + 2 ^ 31) (sym id);
    success = refl;
    typed = (refl, refl);
    final = refl;
  },
)

pub deliver_sm-AnsweredBy :
    (g : Globals) (c : DeliverSm.DeliverSm)
    → IsTyped (Pdu.deliver_sm c)
    → AnsweredBy g (Pdu.deliver_sm c)
unfolding get_response can_response get_sequence_number DeliverSmResp.new_from_req DeliverSmResp.new
    new_base set_command_id set_sequence_number set_header_sequence assign_sequence_number
deliver_sm-AnsweredBy g c (id, map, coding) = (
  Pdu.deliver_sm_resp (DeliverSmResp.new_from_req g c).0,
  refl,
  record {
    same_sequence = refl;
    response_bit = ap (λ (k : ℕ). k + 2 ^ 31) (sym id);
    success = refl;
    typed = (refl, refl);
    final = refl;
  },
)

pub enquire_link-AnsweredBy :
    (g : Globals) (c : EnquireLink.EnquireLink)
    → IsTyped (Pdu.enquire_link c)
    → AnsweredBy g (Pdu.enquire_link c)
unfolding get_response can_response get_sequence_number EnquireLinkResp.new_from_req
    EnquireLinkResp.new new_base set_command_id set_sequence_number set_header_sequence
    assign_sequence_number
enquire_link-AnsweredBy g c (id, map) = (
  Pdu.enquire_link_resp (EnquireLinkResp.new_from_req g c).0,
  refl,
  record {
    same_sequence = refl;
    response_bit = ap (λ (k : ℕ). k + 2 ^ 31) (sym id);
    success = refl;
    typed = (refl, refl);
    final = refl;
  },
)

pub query_sm-AnsweredBy :
    (g : Globals) (c : QuerySm.QuerySm) → IsTyped (Pdu.query_sm c) → AnsweredBy g (Pdu.query_sm c)
unfolding get_response can_response get_sequence_number QuerySmResp.new_from_req QuerySmResp.new
    new_base set_command_id set_sequence_number set_header_sequence assign_sequence_number
query_sm-AnsweredBy g c (id, map) = (
  Pdu.query_sm_resp (QuerySmResp.new_from_req g c).0,
  refl,
  record {
    same_sequence = refl;
    response_bit = ap (λ (k : ℕ). k + 2 ^ 31) (sym id);
    success = refl;
    typed = (refl, refl);
    final = refl;
  },
)

pub replace_sm-AnsweredBy :
    (g : Globals) (c : ReplaceSm.ReplaceSm)
    → IsTyped (Pdu.replace_sm c)
    → AnsweredBy g (Pdu.replace_sm c)
unfolding get_response can_response get_sequence_number ReplaceSmResp.new_from_req ReplaceSmResp.new
    new_base set_command_id set_sequence_number set_header_sequence assign_sequence_number
replace_sm-AnsweredBy g c (id, map, coding) = (
  Pdu.replace_sm_resp (ReplaceSmResp.new_from_req g c).0,
  refl,
  record {
    same_sequence = refl;
    response_bit = ap (λ (k : ℕ). k + 2 ^ 31) (sym id);
    success = refl;
    typed = (refl, refl);
    final = refl;
  },
)

pub submit_multi-AnsweredBy :
    (g : Globals) (c : SubmitMulti.SubmitMulti)
    → IsTyped (Pdu.submit_multi c)
    → AnsweredBy g (Pdu.submit_multi c)
unfolding get_response can_response get_sequence_number SubmitMultiResp.new_from_req
    SubmitMultiResp.new new_base set_command_id set_sequence_number set_header_sequence
    assign_sequence_number
submit_multi-AnsweredBy g c (id, map, coding) = (
  Pdu.submit_multi_resp (SubmitMultiResp.new_from_req g c).0,
  refl,
  record {
    same_sequence = refl;
    response_bit = ap (λ (k : ℕ). k + 2 ^ 31) (sym id);
    success = refl;
    typed = (refl, refl);
    final = refl;
  },
)

pub submit_sm-AnsweredBy :
    (g : Globals) (c : SubmitSm.SubmitSm)
    → IsTyped (Pdu.submit_sm c)
    → AnsweredBy g (Pdu.submit_sm c)
unfolding get_response can_response get_sequence_number SubmitSmResp.new_from_req SubmitSmResp.new
    new_base set_command_id set_sequence_number set_header_sequence assign_sequence_number
submit_sm-AnsweredBy g c (id, map, coding) = (
  Pdu.submit_sm_resp (SubmitSmResp.new_from_req g c).0,
  refl,
  record {
    same_sequence = refl;
    response_bit = ap (λ (k : ℕ). k + 2 ^ 31) (sym id);
    success = refl;
    typed = (refl, refl);
    final = refl;
  },
)

pub unbind-AnsweredBy :
    (g : Globals) (c : Unbind.Unbind) → IsTyped (Pdu.unbind c) → AnsweredBy g (Pdu.unbind c)
unfolding get_response can_response get_sequence_number UnbindResp.new_from_req UnbindResp.new
    new_base set_command_id set_sequence_number set_header_sequence assign_sequence_number
unbind-AnsweredBy g c (id, map) = (
  Pdu.unbind_resp (UnbindResp.new_from_req g c).0,
  refl,
  record {
    same_sequence = refl;
    response_bit = ap (λ (k : ℕ). k + 2 ^ 31) (sym id);
    success = refl;
    typed = (refl, refl);
    final = refl;
  },
)
