-- ===== src/Lib.antt =====
-- Verification library of the Reticulum SDK (Rust crate, sources in src/).
--
-- The program is a node of a Reticulum mesh network. Packets (src/packet.rs) arrive on interfaces
-- as byte streams, are cut out of the stream by a framing (src/iface/hdlc.rs), parsed
-- (src/serde.rs, over the cursors of src/buffer.rs), and routed.
--
-- Files:
--   Base       shared helpers: tests on numbers, lists, hash maps as association lists
--   Error      src/error.rs: RnsError; a fallible method is a state transformer that keeps its
--              state on an error
--   Buffer     src/buffer.rs: Output, Input, Static model the three buffers; Append, Reading and
--              Bounded prove them against lists; Writers and Readers are the contracts by which
--              sequences of writes and reads compose
--   Packet     src/packet.rs: Header, Context, Types and Mdu model the data; Meta proves the byte
--              codecs
--   Serde      src/serde.rs: serialize and deserialize; Wire is the format as a function on lists
--   Iface/Hdlc src/iface/hdlc.rs: encode, find, decode; Frame is the frame as a function on lists
--   Iface/Kiss src/iface/kiss.rs: the frames on a serial line and their decoder (Frames)
--   Iface/Ifac src/iface/ifac.rs, with encode_tx and decode_rx of src/iface.rs: signing and masking
--              of frames; Mask, RoundTrip and Acceptance are about frames, Codes about signatures,
--              Transfer about packets from one node to another
--   Iface/ReconnectPacer src/iface/reconnect_pacer.rs: backoff and blocks of clients (Backoff,
--              Flood)
--   Iface/Message src/iface.rs: the messages to the interface manager
--   Crypt/Fernet src/crypt/fernet.rs: encrypted tokens (Tokens)
--   Identity   src/identity.rs and src/hash.rs: identities and their hex strings (Hex)
--   Channel    src/channel.rs: Envelope, Inbound, Params and Outbound are the code; Order and
--              Arrivals are about the receiver, Window, InFlight, Delivery, Status and
--              Proofs about the sender
--   Transport  the tables of src/transport/: PacketCache (packet_cache.rs; Eviction, Filter),
--              ReverseTable (reverse_table.rs; Proofs), AnnounceLimits (announce_limits.rs;
--              Blocking), PathTable (path_table.rs; Entry, Table and Routing are the code, Updates,
--              Replay, Stale, Forwarding and Maintenance the theorems), PathRequests
--              (path_requests.rs; Decoding, Discovery), LinkTable (link_table.rs; Cases, Direction,
--              Validation, Requests), AnnounceTable (announce_table.rs; Entry, Cache and Table are
--              the code, Budget, Archive, Bounds, Responses, Answers and Echoes the theorems),
--              Blackhole (blackhole.rs; Precedence)
--
-- The names of operations are the source's; where two tables share one, the table is put before it
-- (path_handle_announce, update_cache). A hash map is an association list, with `Unique` for the
-- absence of duplicate keys. Instants and durations are numbers of nanoseconds, and the clock is an
-- argument of what reads it. Log output is left out.
-- A byte is a number; where a theorem needs it below 256 it says so. `usize` sums of slice lengths
-- do not overflow and are plain sums; the counter of an announce limiter wraps around. Loops over
-- slices are recursions on lists. The one loop on fuel, which releases the messages of a channel,
-- has the number of messages on hold as its fuel: each turn takes one away, and it is proved that
-- none is left to release.
-- An asynchronous handler is a function of the state and of what it reads from its surroundings;
-- what it does to them is a list of effects. `f32` comparisons are parameters.
-- SHA-256, HKDF, HMAC, AES-CBC, X25519 and Ed25519 are parameters; what a theorem relies on of
-- them is its hypothesis `IsSound`, and of the hash of packets that it determines their context.
-- Not modelled: asynchronous I/O and tasks, key exchange, links and resources, the transport
-- node that drives the tables, radio drivers.
pub mod Base
pub mod Error
pub mod Buffer
pub mod Packet
pub mod Serde
pub mod Crypt
pub mod Channel
pub mod Iface
pub mod Transport
pub mod Identity
