-- ===== src/Lib.antt =====
-- Verification of gospeak, a voice chat server with its client.
--
-- The program. A server (pkg/server) keeps TCP connections for control messages and one UDP socket
-- for voice. A connection authenticates with a name and a token, gets a session, and then joins and
-- leaves channels, chats and, with the role for it, administers. The server keeps the sessions
-- (session.go), who is in which channel (channels.go) and the connections (control.go), and puts
-- users, channels, tokens and bans into a DataStore (pkg/store). The voice loop (voice.go) forwards
-- each packet (pkg/protocol) to the other members of the sender's channel without decrypting it
-- (pkg/crypto). Roles and their permissions are in pkg/model and pkg/rbac. A client (pkg/client) has
-- an engine, which keeps the connection's state, sends the user's requests, encrypts what the
-- microphone gives (pkg/audio), and decrypts, orders and plays what it hears.
--
-- Files and what they model.
--   Prelude and below       names of the library, integers, tests, lists, maps, big-endian words
--   Utf8 and below          the strings.Map, unicode and utf8 functions that the code uses, and
--                           sanitizeText (pkg/server/control.go)
--   Model, Model/Username   pkg/model/model.go
--   Rbac                    pkg/rbac/rbac.go
--   Protocol and below      pkg/protocol/protocol.go: Packets for voice, Frames for control messages
--   Crypto, Crypto/Nonces   pkg/crypto/crypto.go
--   Store                   pkg/store/interface.go: DataStore is a record of operations on a type of
--                           states, which the server takes as a parameter
--   Store/Memory and below  pkg/store/memory.go, which fills that record (memory_store); Users,
--                           Lookups, Channels, Tokens and Calls have the proofs
--   Store/Sql and below     pkg/store/store.go over a database that is a parameter: Users, Channels,
--                           Tokens and Migrations; Table, Refinement and Runs compare its tokens
--                           with those of the in-memory store, Bans its bans;
--                           Migrations/Versions and Rerun are about a second start
--   Server/Channels         pkg/server/channels.go; Invariant and Membership have the proofs
--   Server/Sessions         pkg/server/session.go; Invariant has the proofs
--   Server/State            the state that the server's goroutines share: Server and ControlHandler
--                           (pkg/server/server.go, control.go, metrics.go), and the messages
--                           (pkg/protocol/pb/messages.go)
--   Server/Broadcast        broadcastToChannel, sendServerState, broadcastServerState,
--                           cleanupTempChannel (control.go)
--   Server/Control/*        the handlers of control.go: Membership, ChannelAdmin, Moderation,
--                           Transfer, Connection (handleControlConn) and Dispatch (handleMessage);
--                           Rights, Admission, Joins, Leaves and Authentication have the proofs
--   Server/Voice            voiceLoop (voice.go); Forwarding, Delivery and Stream have the
--                           proofs
--   Server/Config           pkg/server/config.go; Import has what an import keeps
--   Server/Start            Run up to the listeners, and ensureAdminToken (pkg/server/run.go);
--                           FirstRun has the proofs
--   Server/Core and below   the sessions, channels and connections together: the steps on them
--                           (Core), when they fit together (Soundness), what sends keep (Frame), the
--                           handlers as steps (Handlers, Dispatch), and sequences of events (Events)
--   Client/Jitter           pkg/client/jitter.go
--   Client/Bookmarks        the list of pkg/client/bookmarks.go
--   Client/Control          pkg/client/control.go; Receiving has the proofs
--   Client/Voice            pkg/client/voice.go; Numbers has the nonces
--   Client/Playback         processIncomingVoice (pkg/client/engine.go): Drain has the end of its
--                           loop, Order and Delivery what a listener plays
--   Client/Conversation     speech from one client through the server to another
--   Client/Engine and below pkg/client/engine.go: the state, Connect, handleEvent and
--                           handleDisconnect; Requests and Requests/Commands have the methods for the
--                           user, Audio the audio goroutines, and Consistency, Lifecycle, Leaving and
--                           Speaking the proofs
--   Audio/Vad               pkg/audio/vad.go, over an abstract float64
--   Tests and below         runs and theorems at concrete arguments
--
-- Functions keep their Go names in snake_case. A handler is a function from the state to the state;
-- a part of a handler that is a function of its own says so in its comment.
--
-- Conventions.
--   * int and int64 are ℤ without a bound, since no counter or ID comes near 2^63; lengths, ports
--     and counters are ℕ. Words on the wire and sequence numbers are ℕ with the wrap-around or the
--     bound written out. The product of seconds and nanoseconds in the handlers of tokens and bans
--     wraps at 64 bits.
--   * A text is the list of its bytes. A time is in nanoseconds from the zero Time, which is 0; a
--     handler reads the clock once.
--   * A map is an association list without duplicate keys, and its order is the order in which Go's
--     range visits it. A map to pointers that two maps share goes through a heap.
--   * A method of a manager or a store holds its lock for its whole body, so it is one step; a handler is one step too, and
--     the goroutine of a clean-up is a step of its own after its sleep. Only the join of a channel is
--     taken apart as well: Server/Control/Joins lets other joins come between its check and its move,
--     and Client/Engine/Lifecycle anything between the request of a client and what follows it.
--   * What the server writes to connections is kept in `sent`, the newest first; an error of such a
--     write is only logged by the code.
--   * JSON, YAML, SHA-256, the AEAD, random bytes, the arithmetic of float64, the Opus codec, the
--     database and the network are parameters. What is used of an AEAD is that it opens what it seals
--     and adds 16 bytes; of the database, what its statements on the tables of tokens, of bans and of
--     versions do.
--   * A method of the client's engine is one step, but Connect is two, before and after the dial, and
--     each round of an audio goroutine is one. The engine's lock is free while a request is sent, so
--     Lifecycle also has what follows a request as steps of its own. Two calls of Connect that overlap
--     are left out.
--   * The loop that draws a session ID runs over the words that the generator delivers; there is an ID
--     as soon as one of them is free and not 0. The tree of channels is built to a depth of one more
--     than the number of channels. The loop that plays a speaker's frames has eleven rounds for each
--     frame that is kept, and one more; the loop that receives control messages has one round for
--     each byte, and one more. Both are proved to end by their own test before that.
--
-- Not modelled: listeners, sockets, TLS and deadlines, flags and signals, metrics output, logging,
-- audio devices and codec, settings, hotkeys and the user interface: calls of libraries and of the
-- operating system with little logic of their own.
pub mod Prelude
pub mod Utf8
pub mod Model
pub mod Rbac
pub mod Protocol
pub mod Store
pub mod Crypto
pub mod Server
pub mod Client
pub mod Audio
pub mod Tests
