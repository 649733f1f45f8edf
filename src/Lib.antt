-- ===== src/Lib.antt =====
-- Verification library of gosmpp, a client of the SMPP 3.4 protocol: its PDU codec, from the bytes of
-- a stream to the values of the PDU types and back, and the session that sends and receives PDUs.
--
-- The program. A session (session.go) binds to a short message centre (connect.go) and keeps a
-- transceiver (transceivable.go) over the connection, which it replaces when that fails. The
-- transceiver has a transmitter (transmittable.go) that takes PDUs from a channel, and a receiver
-- (receivable.go) that hands PDUs to the user's callbacks and responses to the transmitter. Both share
-- a window of requests that wait for a response (request_store.go). PDUs are written with Marshal and
-- read with pdu.Parse, which
-- reads a header, checks its length, reads the body, creates a PDU of the type that the command
-- identifier names (pdu/PDUFactory.go) and lets it Unmarshal itself. Every PDU type embeds `base`
-- (pdu/PDU.go): it writes the header with the length of the whole, the body and the optional
-- parameters, and on reading finds out from the length what is left for the parameters. The bodies
-- are made of integers and zero-terminated strings (pdu/Buffer.go), addresses, lists with a count
-- byte, and the short message with its User Data Header.
--
-- Files and what they model.
--   Outcome          what a read gives: a value or an error, and the bytes left; errors/pkg.go
--   Buffer           ByteBuffer of pdu/Buffer.go
--   Globals          sequenceNumber, ref and the default TON and NPI (pdu/PDUHeader.go,
--                    pdu/ShortMessage.go, data/pkg.go): a record passed along
--   Header           pdu/PDUHeader.go
--   Address, AddressRange, DistributionList, DestinationAddress, UnsuccessSme
--                    the files of these names in pdu/; Batch has their lists with a count byte
--   Tlv, Udh         pdu/TLV.go and pdu/UDH.go
--   Gsm7             data/7bit.go: the alphabet, its validations, the packing and the transforms
--   Splitting        ShouldSplit and EncodeSplit of data/codings.go, and data/utils.go
--   Encoding         the numbers and the table of data/codings.go
--   ShortMessage     pdu/ShortMessage.go as it travels; ShortMessage/Split has its texts and split
--   Base             `base` of pdu/PDU.go
--   CommandId        the command identifiers of data/header_data.go
--   Pdu/X            the PDU type X, from the file of that name in pdu/ (BindResp from BindResponse.go);
--                    Pdu/SubmitSm/Split has SubmitSM.Split
--   Packet           the PDU interface: a value of any of the 23 types
--   Wire, Response   Marshal, Unmarshal, CanResponse and GetResponse of the interface
--   Factory          pdu/PDUFactory.go
--   Parse            Parse of pdu/PDU.go
--   Session/Store        request_store.go: the interface RequestStore as a record of operations, and
--                        DefaultStore over the operations of a concurrent map
--   Session/Settings     Settings of pkg.go and State of state.go; Event is what a session does that its
--                        user or its peer sees
--   Session/Failure, Duration, Decimal
--                        the errors of the session, time.Duration, and strconv.Itoa
--   Session/Transmitter  transmittable.go: write, check, the loops, Submit and close
--   Session/Receiver     receivable.go: the handlers, check, the loop and close
--   Session/Connection   connect.go and the wrapper of connection.go
--   Session/Transceiver  transceivable.go: the two halves and how they close each other, windowCleanup
--   Session/Rebinding    session.go: NewSession, rebind, Close and GetWindowSize
-- The child modules are named for what they are about: RoundTrip (reading what was written),
-- Consumption and Framing (how far a read moves), Safety and Fuel (any input). NoPanic is about panics
-- of the whole path from a stream to a PDU. Prelude has lists over native numbers and Boolean tests;
-- Examples has concrete values.
--
-- Conventions. A byte is a number below 256; int16 and int32 are their bit patterns, and comparisons
-- with zero look at the sign bit. A string is the list of its bytes, and in Gsm7 and Splitting of its runes:
-- data.ASCII, the encoding of WriteCString, encodes a string as its own bytes. A Reader takes the unread bytes and gives an
-- Outcome. A Go map is the list of its entries in the order in which `range` visits them, so a
-- statement about every list is one about every order; a nil map is `none`. A method that changes its
-- receiver gives the new one back. What an Unmarshal leaves in the receiver when it fails is not
-- modelled. A panic is an error of its own: nil_map_write,
-- slice_out_of_range and nil_interface.
--
-- The session. What happens outside is an argument: the result of a write, whether a deadline could be
-- set, whether the context of a store access has ended, the time, what a peer sends. A callback that
-- returns nothing is a flag, whether it is set, and its calls are events in order; one that returns
-- something is a function. The loops run over the rounds that the outside grants them, a list. The
-- closing of a half, with the callbacks that it calls, is one step, as is a round of a loop. The
-- concurrent map of github.com/orcaman/concurrent-map is a record of operations; that they make it a
-- finite map with a count is a hypothesis, and an association list shows that it can hold.
--
-- Loops. The loop over the optional parameters has as fuel the number of the bytes, since each
-- parameter takes two bytes at least; the loop of UDH.UnmarshalBinary has as fuel the length byte,
-- since each element takes two bytes at least. Running out is the error out_of_fuel, which is no Go
-- value. The loop of connect that waits for a bind_resp has as fuel one more than the bytes that the
-- peer sends, since each PDU takes bytes. The two halves of a transceiver call each other's close
-- through OnClosed; two calls deep suffices, since the second call is in a state that no OnClosed
-- passes on. EncodeSplit has as fuel the number of runes, since each segment takes one at least. All
-- other loops are structural.
--
-- Not modelled. Steps of two goroutines of one session between each other, the locks that order
-- them, and the waiting for goroutines; deadlines and addresses of connection.go, which only
-- forward to net.Conn; the character sets of golang.org/x/text, so that the encodings are an argument
-- of what splits or encodes a text; printing (String, Hex, HexDump, the descriptions of command status). bytes.Buffer, io.ReadFull
-- and encoding/binary are modelled as far as the code uses them.
pub mod Prelude
pub mod Outcome
pub mod Buffer
pub mod Globals
pub mod Header
pub mod Address
pub mod AddressRange
pub mod DistributionList
pub mod Batch
pub mod DestinationAddress
pub mod UnsuccessSme
pub mod Tlv
pub mod Udh
pub mod Encoding
pub mod ShortMessage
pub mod Base
pub mod CommandId
pub mod Pdu
pub mod Packet
pub mod Wire
pub mod Response
pub mod Factory
pub mod Parse
pub mod NoPanic
pub mod Gsm7
pub mod Splitting
pub mod Session
mod Examples
