-- ===== src/CommandId.antt =====
-- The command identifiers of data/header_data.go, as int32 bit patterns.
use gosmpp.Prelude.{ℕ, ◌+◌, ◌^◌}

abbrev pub generic_nack : ℕ
generic_nack = 2 ^ 31

abbrev pub bind_receiver : ℕ
bind_receiver = 1

abbrev pub bind_receiver_resp : ℕ
bind_receiver_resp = 2 ^ 31 + 1

abbrev pub bind_transmitter : ℕ
bind_transmitter = 2

abbrev pub bind_transmitter_resp : ℕ
bind_transmitter_resp = 2 ^ 31 + 2

abbrev pub query_sm : ℕ
query_sm = 3

abbrev pub query_sm_resp : ℕ
query_sm_resp = 2 ^ 31 + 3

abbrev pub submit_sm : ℕ
submit_sm = 4

abbrev pub submit_sm_resp : ℕ
submit_sm_resp = 2 ^ 31 + 4

abbrev pub deliver_sm : ℕ
deliver_sm = 5

abbrev pub deliver_sm_resp : ℕ
deliver_sm_resp = 2 ^ 31 + 5

abbrev pub unbind : ℕ
unbind = 6

abbrev pub unbind_resp : ℕ
unbind_resp = 2 ^ 31 + 6

abbrev pub replace_sm : ℕ
replace_sm = 7

abbrev pub replace_sm_resp : ℕ
replace_sm_resp = 2 ^ 31 + 7

abbrev pub cancel_sm : ℕ
cancel_sm = 8

abbrev pub cancel_sm_resp : ℕ
cancel_sm_resp = 2 ^ 31 + 8

abbrev pub bind_transceiver : ℕ
bind_transceiver = 9

abbrev pub bind_transceiver_resp : ℕ
bind_transceiver_resp = 2 ^ 31 + 9

abbrev pub outbind : ℕ
outbind = 11

abbrev pub enquire_link : ℕ
enquire_link = 21

abbrev pub enquire_link_resp : ℕ
enquire_link_resp = 2 ^ 31 + 21

abbrev pub submit_multi : ℕ
submit_multi = 33

abbrev pub submit_multi_resp : ℕ
submit_multi_resp = 2 ^ 31 + 33

abbrev pub alert_notification : ℕ
alert_notification = 258

abbrev pub data_sm : ℕ
data_sm = 259

abbrev pub data_sm_resp : ℕ
data_sm_resp = 2 ^ 31 + 259
