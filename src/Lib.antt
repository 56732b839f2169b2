-- ===== src/Lib.antt =====
-- Two programs of a networks course. tp1 copies files between a client and a server over UDP by one
-- of two protocols; tp2 is a router that a POX controller runs on an OpenFlow switch, with address
-- translation.
--
-- Which file models which part:
--   Constants, Exceptions, Event: tp1/src/lib/common/constants.py, exceptions.py, event.py.
--   Packet: packet.py. Packet/Header has the packed header, Packet/RoundTrip the parser.
--   Runtime: what Python and zlib do for the modelled code, as a record of operations.
--   Method: a Python method as a function from the object's state to a result or an exception and the
--     state that it left.
--   Handshake: the payload of a SYN, which both protocols compose and read in the same way.
--   SelectiveRepeat: selective_repeat.py. Delivery, Receiver, Transfer and Datagrams are about the
--     receiving side, Sender, Pushing, Timers and Flow about the sending side, Loops about the fuel.
--   StopAndWait: stop_and_wait.py, and StopAndWait/Exchange.
--   Factory: protocol_factory.py; Factory/Opening is about a client's SYN and the server's handshake.
--   File: file_handling.py, over a disk of bytes by path; File/Content is about what it holds.
--   Endpoint, Client: tp1/src/lib/client/Client.py, whose methods act on a protocol object, a file and the
--     datagrams sent; Factory/Methods dispatches on the class of the protocol object.
--   Server: tp1/src/lib/server/Server.py, its client threads; Server/Table has the main loop and the table
--     of queues, Server/Abandoned is about the threads that end, and
--     Server/Faults about a repeated ACK and a late one.
--   CommandLine: tp1/src/lib/common/cli.py; CommandLine/Options has what it relies on of argparse, and
--     CommandLine/Typing, CommandLine/Accepting and CommandLine/Latest are about the values that an
--     accepted line gives.
--   Logging: tp1/src/lib/common/logger.py. Programs: tp1/src/upload.py, download.py and start-server.py;
--     Programs/Starting is about what they read of the line, Programs/Asked and Programs/Asking
--     about what the upload program does.
--   Upload: client and server over a network that loses, repeats and reorders datagrams and does not
--     change them, for an upload by selective repeat. Network has the program `upload_file` after its SYN
--     and a server's thread from its start, with its inactivity and the ways in which it ends; its
--     opening is the SYN, the answer and the ACK of the connection, and its moves are quiet if they give
--     the server no further ACK of the connection, which would empty the file, and if the thread does
--     not break off by inactivity. Under Network, Opening and Simulation relate it to the two endpoints
--     alone, on which the invariants are proved; Turns, Promises, Deliveries and Finishing are about it.
--     Chunks cuts the file, Traffic has the datagrams; Sending, Progress, Front, Acknowledging, Blocks,
--     Uploading, Finishing, Events, Responses, Resending and Growing are about the client, Storing,
--     Requests, Answers, Parts and Arrivals about the server, Start, Steps, Moves, Safety and Closing
--     about both, and Rounds, Completion and Liveness about the moves that end an upload.
--   Translation: tp2/src/handlers/nat_handler.py and icmp_handler.py, which have the same code; Nat and
--     Icmp are its two instances. Pools, Validity, Reaping and Sessions are about it.
--   Frames: what the router reads and writes of POX's packets and OpenFlow's messages.
--   Arp: arp_handler.py, and Arp/Learning.
--   Router: protorouter.py. Sending has the state and the resolution of addresses, Forwarding the three
--     directions of IP traffic, Handlers the dispatch of events; Steps, Sessions, Flows and Waiting are
--     about them.
--   Topology: tp2/src/topo.py, and Topology/Addresses, which is about it and the router's constants.
--   Common: lists, tests, bits and Python's dicts. Tests: the theorems at concrete inputs.
--
-- How they interact: a protocol object parses datagrams by Packet, and gives its owner, client or
-- server, an Event and the bytes to send. The router asks Arp for the next hop, Translation for the
-- public or private address, and sends flows and frames over its connection.
--
-- Conventions. An object is a record, and a method takes it and gives it back. Bytes are numbers below
-- 256, and the fields of a header that are wider than their bits are refused as struct.pack refuses
-- them. Python's dicts are association lists in insertion order. The clock is an argument: each reading
-- of time.time() is one, in milliseconds. Loops over a window, a buffer or a range recurse on fuel that
-- their caller gives: the count of what the loop can still visit, as each turn removes an entry or
-- passes a number.
--
-- Parameters, for code that is not here: zlib.crc32 and Python's text functions (Runtime, with their
-- documented laws), the connect of a client's socket, POX's inNetwork and constants (Pox), and the
-- joining of paths. Where a theorem speaks of what a switch does with a flow, OpenFlow 1.0's rules for
-- the fields and actions used are written out in Router/Flows.
--
-- Sockets are lists of what was sent and of what arrives. The threads of the server take turns in any
-- order, each turn being one round of a thread's loop.
--
-- Not modelled: help texts and log messages, the start-up of sockets and directories, the topology of
-- tp1, and what Mininet does, as these only call other code; the code that no caller reaches.
pub mod Common
pub mod Exceptions
pub mod Constants
pub mod Packet
pub mod Runtime
pub mod Method
pub mod Event
pub mod Handshake
pub mod SelectiveRepeat
pub mod StopAndWait
pub mod Factory
pub mod File
pub mod Endpoint
pub mod Client
pub mod Server
pub mod CommandLine
pub mod Logging
pub mod Programs
pub mod Upload
pub mod Translation
pub mod Nat
pub mod Icmp
pub mod Frames
pub mod Arp
pub mod Router
pub mod Topology
mod Tests
