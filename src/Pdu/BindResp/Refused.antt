-- ===== src/Pdu/BindResp/Refused.antt =====
-- A refused bind in pdu/BindResponse.go: Marshal writes the system_id, Unmarshal does not read it.
use gosmpp.Prelude.{Option, ◌≡◌, refl, ap, ◌∙◌, false, [], ◌∷◌, ◌++◌, length, arith}
use gosmpp.Outcome.{Bytes, ok, err, not_enough_bytes, pure, ◌>>=◌}
use gosmpp.Base.{marshal_options}
use gosmpp.Base
use gosmpp.Tlv
use gosmpp.Buffer.{read_n, read_short, write_c_string}
use gosmpp.Header
use gosmpp.Header.{Header}
use gosmpp.Pdu.BindResp.RoundTrip.{has_system_id-framed}
use gosmpp.Base.{
  Base, Options, unmarshal_from, finish, read_options, aside, unmarshal_optional_param, option_loop,
  option_field,
}
use gosmpp.Base.RoundTrip.{
  IsFrame, framed, wire, wire_lem, framed-length, framed-IsWords, length-wire,
  unmarshal_from-append,
}
use gosmpp.Pdu.BindResp.{BindResp, write_body, read_body, has_system_id, marshal, unmarshal}

one_byte :
    (m : Option Options) → unmarshal_optional_param m (0 ∷ []) ≡ err not_enough_bytes (0 ∷ [])
unfolding unmarshal_optional_param option_loop option_field Tlv.unmarshal read_short read_n ◌>>=◌
one_byte m = refl

-- One byte is left for the optional parameters: not a whole tag.
finish_one_byte {ℓ} :
    {A : Type ℓ} (c : Base) (a : A)
    → c.header.command_length ≡ 17
    → finish 17 c a (0 ∷ []) ≡ err not_enough_bytes []
unfolding finish read_options aside ◌>>=◌ read_n unmarshal_optional_param
finish_one_byte c a e = rw (e, one_byte c.optional_parameters) refl

read_body_refused :
    (c : BindResp) (h : Header) (b : Bytes) → has_system_id h ≡ false → read_body c h b ≡ ok c b
unfolding read_body pure
read_body_refused c h b e = rw e refl

frame_refused :
    (c c0 : BindResp)
    → IsFrame c.base (write_body c)
    → c.system_id ≡ []
    → marshal_options c.base.optional_parameters ≡ []
    → has_system_id c.base.header ≡ false
    → Base.unmarshal c0.base (read_body c0) (wire c.base (write_body c)) ≡ err not_enough_bytes []
unfolding Base.unmarshal write_body write_c_string
frame_refused c c0 h empty no_options refused =
    let body : write_body c ≡ 0 ∷ [] = ap (λ s. s ++ (0 ∷ []) ++ []) empty in
    let bytes : wire c.base (write_body c)
        ≡ Header.marshal (framed c.base (write_body c)).header ++ ([] ++ (0 ∷ [])) =
      wire_lem c.base (write_body c)
      ∙ rw no_options
          (ap (λ b. Header.marshal (framed c.base (write_body c)).header ++ (b ++ [])) body) in
    let size : (framed c.base (write_body c)).header.command_length ≡ 17 = omega (
      arith,
      framed-length c.base (write_body c) h,
      ap (λ (l : Bytes). length l) body,
      ap (λ (l : Bytes). length l) no_options,
    ) in
    let full : length (wire c.base (write_body c)) ≡ 17 =
      length-wire c.base (write_body c) h ∙ size in
    rw full (
      ap (λ b. unmarshal_from 17 c0.base (read_body c0) b) bytes
      ∙ unmarshal_from-append 17 c0.base (read_body c0) (framed c.base (write_body c)).header []
          (0 ∷ []) c0 _ (framed-IsWords c.base (write_body c) h)
          (read_body_refused c0 _ (0 ∷ []) (has_system_id-framed c (write_body c) ∙ refused))
          (finish_one_byte _ c0 size))

-- A bind_resp with neither system_id nor optional parameter, that is no bind_transceiver_resp and
-- has an error status, is not read back from its own bytes: Unmarshal fails for want of bytes.
pub unmarshal-marshal_refused :
    (c c0 : BindResp)
    → IsFrame c.base (write_body c)
    → c.system_id ≡ []
    → marshal_options c.base.optional_parameters ≡ []
    → has_system_id c.base.header ≡ false
    → (b : Bytes) × (unmarshal c0 (marshal c).1 ≡ err not_enough_bytes b)
unfolding unmarshal marshal ◌>>=◌
unmarshal-marshal_refused c c0 h empty no_options refused =
    ([], rw (frame_refused c c0 h empty no_options refused) refl)
