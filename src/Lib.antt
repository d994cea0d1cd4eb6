-- ===== src/Lib.antt =====
-- The UDP segmentation test programs: a client that sends numbered batches with a checksum, cut into
-- datagrams, and a server that puts the datagrams together again, validates the batches and counts
-- what was received, damaged, repeated and lost.
--
-- The program's parts, and the files that model them:
--
--   packet.hpp    Crc: `crc32_update`, `crc32_compute`. Packet: `PacketHeader`, `batch_crc32`,
--                 `header_meta_plausible`, `build_batch`, `validate_batch`,
--                 `validate_batch_session`, `validation_reason`, `peek_batch_length`.
--   server.cpp    Server/State: `ServerStats`, `BatchReassembly`, `reset_reassembly`.
--                 Server/Sequence: `track_sequence`, `finalize_lost`. Server/Mss:
--                 `infer_detected_mss`. Server/Scan: `find_batch_header_offset`,
--                 `find_next_batch_header_offset`. Server/Ingest: `ingest_fragment`,
--                 `try_complete_batch`; what is kept of a corrupt batch is in
--                 Server/Ingest/Salvage. Server/Session: `receive_datagram`,
--                 `run_receive_loop` and the loop of `run_server`. Server/Uro: `receive_uro_datagram`,
--                 and in Server/Uro/Choice what a session receives by. Server/Sequence/History and
--                 Server/Session/Report: the summary for batches that come in any order. Server/Program: `run_server`
--                 and `main`.
--   uso_recv_win.cpp
--                 Server/Uro: `resolve_wsarecvmsg`, `uro_recv_msg`;
--                 `uro_configure_recv_socket` in Server/Uro/Configure. `sockaddr_to_endpoint` is
--                 in Windows/Address.
--   uso_send_win.cpp
--                 Windows/Address: `endpoint_to_sockaddr`, with `parse_address` of common.hpp.
--                 Uso: the cached function pointers and `configure_udp_send_segment_size`.
--                 Uso/Message: `invoke_wsasendmsg`, `send_plain_datagram`,
--                 `try_wsasendmsg_uso`. Uso/Stale: the routine of an earlier send. Uso/Buffer: `send_buffer_uso`. Uso/Route:
--                 `resolve_uso_bind_address` and what it calls. Uso/Socket:
--                 `create_uso_udp_socket`, `uso_socket_local_endpoint`.
--   client.cpp    Client: `send_batch_fallback` and the loop of `run_client`, as on platforms other
--                 than Windows. Client/Main: `main`, and `run_client`
--                 with its set-up. Client/Windows: `send_batch_windows`, `run_client` and `main`
--                 on Windows.
--   common.hpp,   Options: `parse_port`, `parse_batch_size`, `parse_mss`, `parse_count`. Options/Arguments:
--   cli.hpp       the loops over `argv`. Options/Server: `parse_server_options`. Options/Client:
--                 `parse_client_options`.
--
-- The client builds each batch into one buffer (Packet) and sends it whole or in segments (Client). The
-- server gives each datagram to `ingest_fragment`, which scans for a header (Server/Scan), copies
-- fragments into the buffer of a batch, and has `try_complete_batch` validate the batch (Packet) and
-- track its number (Server/Sequence). The two call one another: a complete batch inside a corrupt one
-- is ingested again. On Windows the client hands a batch to `send_buffer_uso` (Uso), which has the
-- system cut it, and tries up to three ways to send it. A session (Server/Session) ends with
-- `finalize_lost` and its summary.
--
-- How the code is modelled. A buffer and its size are one list of bytes; what `[data + offset, data +
-- length)` holds is that list without its front. State that goes by reference is an argument and part
-- of the result. A `std::optional` is an Option, a set of numbers a list, an exception the `thrown` of
-- a Result. Integers are natural numbers with their wrap-around written out (Base/Word): `uint32_t`, and a
-- `std::size_t` of 64 bits. Client/Transfer joins the two programs: what a run of the client sends is
-- what a session of the server receives.
--
-- Parameters. The random generator is a function `draw` on a state. The client's socket is `send_to`
-- on a state of the world; `SendsAll` says that it sends each datagram whole. The server's system is the
-- record `System`: whether it is Windows, `receive_from`, `setsockopt` with SO_RCVTIMEO, `select` on
-- Windows and `poll` elsewhere, and the steady clock, which counts nanoseconds; `IsPrompt` says that datagrams are there when they are asked for. `WSARecvMsg` of
-- Windows is the record `WindowsReceive`. For sending, the calls of Windows are the record `Winsock`
-- and those of Boost.Asio the record `Asio` (Windows); an `Action` passes the state of the process, with the
-- function-local `static` variables, and gives it back after an exception too. Uso/Wire says what
-- is documented of the calls: a message goes whole, in segments of the size that it or the socket
-- says, or fails and sends nothing. `KeepsSockets` says which calls open and close a
-- socket, and `MakesSockets` which calls send nothing. `Faultless` says which calls succeed, for the
-- theorems on runs in which nothing fails.
-- A completion routine reports to the context at the address that it is given (`Routine`, `frame`);
-- memory that is free is not modelled, so a routine at another address changes nothing. The routine of
-- a send that is done at once stays queued, and a later alertable wait may run it: that case is in
-- Uso/Stale. `IsUnmixed` says that there is none, since no overlapped call is done at once, or none
-- stays under way.
--
-- Bounds and fuel. `ingest_loop` takes fuel, which the calls inside it share; `enough_fuel` is twice
-- the bytes at hand and three more, since every round that leaves bytes to read lowers twice the bytes
-- at hand, plus one while no batch is under way. `send_segments` has one round more than there are
-- bytes. `count_lost` has 2 ^ 32 + 1 rounds, one for each
-- `uint32_t` and one for the test that ends the loop. The loops of a session and of the
-- server wait for the network: they take a number of rounds, and `unfinished` is their result where
-- that is not enough. The alertable wait of `invoke_wsasendmsg` takes a number of waits: two more than
-- a message stays under way are enough.
--
-- Not modelled: the calls of Boost.Asio that set up the sockets, other than that of uso_send_win.cpp, are
-- one parameter (`listen`, `set_up`); `log_windows_version`, the verbose log, and the printing of
-- progress, summaries, help and the message of an exception; the build files and scripts.
pub mod Base
pub mod Crc
pub mod Packet
pub mod Server
pub mod Windows
pub mod Uso
pub mod Client
pub mod Options
