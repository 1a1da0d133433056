-- ===== src/Lib.antt =====
-- A file transfer over UDP with a sliding window: `server` sends a file to `rcopy`, which asks for
-- lost packets again. The parts, the files of the repository that they come from, and the modules
-- that model them:
--
-- - Wire: helperFunctions.h and helperFunctions.c. `PduHeader` is `pdu_header`; `build_pdu` is
--   `sendPdu` up to the call of `sendtoErr`, and `send_pdu` the whole of it. A packet is a list of
--   bytes as they stand in memory; the host is little-endian.
-- - Window: windowBuffer.h and windowBuffer.c. A pane is its sequence number and its 1400 bytes.
--   `malloc` is a parameter that returns panes with any contents, or nothing.
-- - Server.Transfer: server.c, `transferData`, `send_data_packet`, `send_eof_packet`,
--   `send_next_data` and `retransmit_packets`, with the local variables in one record `Transfer`.
-- - Rcopy.Receive: rcopy.c, `stateFileReceive`, `sendRR`, `sendSREJ` and `sendEOF`, with the local
--   variables in one record `Receive`.
-- - Rcopy.Handshake: rcopy.c, `sendFilename` and `stateHandshake`. Rcopy.Program: `checkArgs`, what
--   `main` fills in, `stateInit` and `rcopyFSM`, which runs the two other parts in turn.
-- - Server.Client: server.c, the parent process `runServerFSM` as a step relation on its states,
--   `childInfo`, `runChild`, `processClient` and `lookupFilename`. Server.Args: `checkArgs` and
--   `main`.
-- - Handshake: what the client asks and what the server answers, as the other side reads it.
-- - Poll: pollLib.h and pollLib.c, the set of descriptors as a record of the static variables.
-- - Network: networks.c, gethostbyname.c (Network.Names) and the wrappers of safeUtil.c, with the
--   socket of `childInfo` (Network.Setup). The operating system answers each call as it likes.
-- - Protocol: a child in the loop of `transferData` and a client in the loop of `stateFileReceive`
--   joined by a step relation, in which each hears what the other has sent. Protocol.Agree is the
--   invariant of the two, Protocol.Abstract the transfer without packets that they refine, by
--   Protocol.Refine, Protocol.Complete (with Protocol.Laps) a run that ends from wherever they
--   stand, on which each packet goes where it was sent to (Protocol.Routed). Protocol.Loops adds a
--   round to either main loop. The child's answer to the file name is not among the packets here.
-- - Session: `rcopyFSM` on one side, and the parent and `runChild` on the other, from the request
--   to the end. Session.Asking is the handshake when answers get lost, Session.Programs leads from
--   the rounds of Protocol to the two programs.
-- - Net: what a wait brings (pollLib.c and safeUtil.c), and an open file.
-- - Checksum and Internet: the checksum routine of the CPE464 library is a parameter with the laws
--   that the program relies on; Internet shows that RFC 1071 has them.
-- - Spec: a file cut into chunks of the buffer size, and the sizes that the code is meant for;
--   Spec.Last is the number at which the transfer of a file ends.
-- - Base: results that may be faults, lists, loops. Examples: concrete data and tests.
--
-- The two programs meet in the packets: the server's child sends what Wire builds, and the client
-- answers with RR, SREJ and the acknowledgement of the end. The network may lose, repeat, delay
-- and corrupt packets; each side is a function of the list of events that it meets at its waits,
-- and conditions on those events say what a packet that passes the checksum test may be. In
-- Protocol both run against each other, and these conditions become part of one invariant:
-- Server.Transfer.Terms and the parameter `Peer` of Rcopy.Receive are where the two sides meet. One
-- condition is left, which the code needs: a client that expects a packet not yet sent must hear no
-- corrupt packet, since it would ask for that packet, and the child sends whatever its pane holds.
--
-- A computation is a `Result`: a value, a call of `exit`, or undefined behaviour of C by its cause.
-- A function on 32-bit numbers wraps around by `u32`. The loops that wait run over the list of
-- events. The others have fuel: a window's size of rounds and one more, and four rounds for the
-- states of the client, which the theorems show to be enough, since none of them may stop with
-- `out_of_fuel`.
--
-- Not modelled: printing, and the CPE464 library with its simulated errors. What the operating
-- system answers, `getaddrinfo`, `inet_ntop`, `atoi`, `atof`, `access`, `malloc`, `realloc` and `poll`
-- are parameters. Sequence numbers that wrap around 2^32 are excluded by the conditions on events.
pub mod Base
pub mod Checksum
pub mod Examples
pub mod Handshake
pub mod Internet
pub mod Net
pub mod Network
pub mod Poll
pub mod Protocol
pub mod Rcopy
pub mod Server
pub mod Session
pub mod Spec
pub mod Window
pub mod Wire
