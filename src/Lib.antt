-- ===== src/Lib.antt =====
-- A CFDP file delivery protocol (Program/): a sender splits a file into data PDUs, the receiver
-- keeps the ranges of the file that are still missing, asks for them again, and reports the end.
--
-- The modules, and the code that they model:
--   Wire      memory as bytes, memcpy, byte order of the host and the network (Program/include/port.h)
--   Packet    Program/src/packet.c. Fields: bit fields and the data length; Ids: entity ids and
--             transaction numbers of one to eight bytes; Header: the PDU header; Directives: EOF,
--             ACK, Finished and the NAK directive; Nak: the NAK PDU with its list of offsets
--   File      Program/src/filesystem_funcs.c. Missing: `receive_offset` on the list of missing
--             offsets; Checksum: `calc_check_sum`
--   Request   Program/include/types.h: the state of a transaction, and the packets sent for it
--   Reception Program/src/protocol_handler.c, `process_data_packet`, and `write_offset` of
--             Program/src/filesystem_funcs.c, with lseek and write as arguments
--   Sending   Program/src/packet.c, `build_data_packet`, and `get_offset` of
--             Program/src/filesystem_funcs.c, with lseek and read as arguments
--   Server    Program/src/protocol_handler.c: `on_server_time_out` and all that it calls
--   Client    Program/src/protocol_handler.c: the ACK branch of `parse_packet_client`
--   Sender    Program/src/protocol_handler.c: `user_request_handler`, with the bursts of data PDUs, and
--             `parse_packet_client`, with all that they call
--   Clock     Program/src/app_control.c, `check_timeout` and `timeout`
--   Mib       Program/src/mib.c, `get_header_from_mib`
--   LinkedList Program/src/list.c on a heap of nodes, with every operation; Refinement relates it to
--             the sequences that the other modules use
--   Message   Program/src/requests.c and Program/src/packet.c: the messages of a metadata PDU
--   Metadata  Program/src/packet.c, `build_put_packet_metadata`, and Program/src/protocol_handler.c,
--             `parse_metadata_packet` and `process_messages`
--   Incoming  Program/src/protocol_handler.c: `parse_packet_server` and what it calls, with the
--             temporary files of Program/src/filesystem_funcs.c
--   Transfer  a sender's burst as a receiver takes it: Sender and Reception together
--   Creation  Program/src/requests.c, `init_request` and `put_request_no_client`, with `create_file` of
--             Program/src/filesystem_funcs.c
--   Saved     Program/src/filesystem_funcs.c, the missing offsets in the JSON file of a saved request
--   Session   Program/src/requests.c, put, get and scheduled requests, and the clients that they start
--             (Program/src/file_delivery_app.c, `init_client` and `ssp_client`)
--   Application Program/src/app_control.c and Program/src/protocol_handler.c: the requests of a server
--             (Server) and of a client (Client), `process_pdu_header` and the callbacks for packets and
--             timers. Routing and Serving are about packets, Rounds about timers, Ids about handlers
--   Common    tests, lists and machine words
--   Tests     each result used on an example
--
-- How the code is written down. A buffer is a function from addresses to bytes, so that a packet
-- keeps what an earlier one left in it. Unsigned integers are natural numbers, reduced (u8, u16,
-- u32, u64) where the code's type wraps around; a difference of 32 bits has 2 ^ 32 added first. A
-- bit field is a number, and its width a hypothesis. The result -1 and NULL are `none`. The list of
-- missing offsets is the sequence of its elements; an allocation that may fail is an argument.
-- `ssp_sendto` appends the buffer to the list of those sent. The names of the code are kept.
--
-- The loop of `calc_check_sum` runs on fuel, since its end wraps around for short data; the results
-- say how much is enough. So do the walks through a list of nodes, which take one more than its
-- length, the loop over the messages of a packet, and the loops of the sender. All other loops
-- follow a list or a count.
--
-- The requests of an application are cells with addresses; those in the list, and those that found no
-- place in it, are the ones that are allocated, and a program that follows another address has no result.
-- There is memory for the buffer of a client. The handlers of a request
-- take the buffer that all requests of a server, or of a client, share.
--
-- Not modelled: sockets, threads, files and the clock itself (Program/src/port.c, the server providers,
-- main.c, most of file_delivery_app.c), the JSON parser Program/include/jsmn.h and the rest of the
-- files that are read and written with it, with `init_cont_partial_request`, printing, and the freeing
-- of memory when the program ends.
-- Memory for messages is always found.
-- The byte order of the host is an argument, since htons and htonl belong to the platform.
pub mod Common
pub mod Wire
pub mod Packet
pub mod File
pub mod Request
pub mod Server
pub mod Client
pub mod Reception
pub mod Sending
pub mod Mib
pub mod LinkedList
pub mod Message
pub mod Metadata
pub mod Incoming
pub mod Sender
pub mod Clock
pub mod Transfer
pub mod Creation
pub mod Application
pub mod Session
pub mod Saved
pub mod Tests
