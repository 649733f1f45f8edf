-- ===== src/Pdu/SubmitSm/Split.antt =====
-- SubmitSM.ShouldSplit and SubmitSM.Split of pdu/SubmitSM.go. What Split leaves in the message of its
-- receiver is not modelled.
use Prim.Native.Nat.{bit_or}
use gosmpp.Prelude.{ℕ, Bool, List, map, ◌⊎◌, inl, inr, ltb, if◌then◌else◌, length}
use gosmpp.Outcome.{Error}
use gosmpp.Globals.{Globals}
use gosmpp.ShortMessage.{ShortMessage}
use gosmpp.ShortMessage.Split
use gosmpp.ShortMessage.Split.{Codecs, sm_gsm_msg_len}
use gosmpp.Pdu.SubmitSm.{SubmitSm}

unfoldable pub should_split : SubmitSm → Bool
should_split c = ltb sm_gsm_msg_len (length c.message.message_data)

-- `c.EsmClass | data.SM_UDH_GSM` where there are several messages.
unfoldable pub part_esm_class : SubmitSm → List ShortMessage → ℕ
part_esm_class c multi_msg =
    if ltb 1 (length multi_msg) then bit_or c.esm_class 0x40 else c.esm_class

unfoldable pub with_messages :
    SubmitSm → (Error ⊎ List ShortMessage) × Globals → (Error ⊎ List SubmitSm) × Globals
unfolding part_esm_class
with_messages c (inl e, g) = (inl e, g)
with_messages c (inr multi_msg, g) = (
  inr (map (λ msg. record c { esm_class = part_esm_class c multi_msg; message = msg }) multi_msg),
  g,
)

unfoldable pub split_submit : Codecs → Globals → SubmitSm → (Error ⊎ List SubmitSm) × Globals
unfolding with_messages
split_submit codecs g c = with_messages c (Split.split codecs g c.message)
