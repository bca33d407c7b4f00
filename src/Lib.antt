-- ===== src/Lib.antt =====
-- gomeshcom-client: the server side of a web client for a MeshCom radio node, in Go.
--
-- The program sits between a radio node (serial line, network console or UDP) and browsers. Bytes
-- from a console are cut into records and JSON payloads (internal/consolecodec, Console/Decoder
-- and Console/Extract). A packet is classified and split (internal/meshcom, Meshcom), filed under
-- a conversation (internal/chatlog, Chatlog) and checked against the messages that wait for
-- their echo (internal/outbox, Outbox). Text from an operator is validated
-- (internal/meshcom/packet.go, Meshcom/Outgoing) and encoded as a console command
-- (internal/consolecodec/encoder.go, Console/Encoder). Around these stand small stores with a
-- dirty flag (internal/station, internal/channelshow, internal/chatstatus, internal/positions,
-- internal/dmstats, internal/stats) and two bounded queues (internal/events, internal/udpforward).
-- The bridges to the node (internal/netconsole, internal/serialbridge) connect, hand what they read
-- to the decoder, the forwarder and the ingest, send what the encoder makes, and connect again
-- when the connection is lost. The configuration (internal/config) is checked before the bridges
-- are made of it; the HTTP server (internal/httpapi) keeps sessions and compresses responses.
--
-- How the files correspond to the code. Functions keep their names, in snake case.
--   Text           Go strings as lists of bytes; the functions of `strings` the program calls
--   Map            Go maps with string keys, as association lists
--   Callsign       internal/callsign/callsign.go: Normalize, IsValid
--   Chatlog        internal/chatlog/chatlog.go: Ids has the functions on identifiers, Records and
--                  Tables the records and the two tables
--   Meshcom        internal/meshcom/packet.go and sto_notice.go: tags, notices, outgoing texts
--   Console        internal/consolecodec: Decoder (Feed, Flush), Extract (extractExtPayload,
--                  matchingObjectEnd), Encoder (Encode), Decimal (digits)
--   Outbox         internal/outbox/outbox.go: Register, Confirm, Cancel and the expiry timer
--   PacketIngest   internal/packetingest/processor.go: Process, as the calls it makes
--   Saving         the two critical sections that the stores share in SaveIfDirty, and the saves
--                  that are under way
--   ChatStatus     internal/chatstatus/status.go
--   Positions      internal/positions/store.go
--   Station        internal/station/identity.go
--   ChannelShow    internal/channelshow/store.go
--   DmStats        internal/dmstats/store.go
--   Stats          internal/stats: the counters of each hour, their keys (Keys), the events that are
--                  counted (Collector), and the tables (Table, Rows)
--   Telemetry      internal/telemetry/store.go
--   SendCache      internal/sendcache/sendcache.go
--   Transport      internal/transport/status.go
--   Netconsole     internal/netconsole: Auth (the handshake), Bridge (status, sessions, SendText,
--                  processBytes) and Run (Run and runSession, cut at the calls that wait)
--   SerialBridge   internal/serialbridge: Port (Open), Link (as Bridge above) and Run
--   Config         internal/config: defaults and Normalize, Check (Validate), Toml (the fields of
--                  the file), Strings (how they are written), Durations, Accepted (what
--                  cmd/gomeshcomd/main.go makes of it)
--   HttpApi        internal/httpapi: Sessions (auth.go), Compression (compression.go) and Settings
--                  (configapi.go)
--   Events         internal/events/bus.go
--   UdpBridge      internal/udpbridge/bridge.go: the learned address, and SendText
--   UdpForward     internal/udpforward/forwarder.go
--   Tests          runs at concrete inputs
--
-- State and concurrency. A method that holds a mutex is one function on the state; a method
-- with several critical sections is one function for each, so that other methods may come
-- between them. Several saves of a store may be under way, each with the copy it has taken and
-- the oldest first; Positions, whose saves come from one goroutine, has one at a time. A goroutine's
-- timer is a step of its own (`expire` of Outbox). `Run` of a bridge is a state machine whose steps
-- lie between its waiting calls, and its end is two steps; `SendText` reads the status and the session
-- of the bridge in two states, and takes two steps when its write has failed, between which `Run` may
-- take any number. Pointers to sessions are numbers, of which the store of the bridge keeps all.
--
-- Bounds. Times are natural numbers of nanoseconds; `int` and `int64` counters are natural
-- numbers, so that a counter of 2^63 messages is outside the model. `string_id` runs its loop
-- on 20 units of fuel, which is enough for numbers below 10^20, more than an `int64` holds. The
-- write loops of the bridges run on as many units as there are bytes to write, since a turn that
-- does not end them sends at least one. Durations of the bridges are natural numbers, since a
-- negative one is refused like zero; those of the configuration, and its other numbers, are
-- integers. Retry counts and durations given in days wrap around at 64 bits as in Go.
-- `strings.ToUpper` and `strings.TrimSpace` are modelled on ASCII bytes; bytes from 128 on are left
-- as they are. A loop over a Go map runs in the order of the association list; what is shown
-- of such a loop is shown for every list, hence for every order.
--
-- Not modelled: the routes and handlers of the HTTP server (internal/httpapi/server.go); serial
-- and network input and output below the bridges, SQLite, JSON and TOML decoding, and floating
-- point, which are libraries or the machine (a database write is a step that succeeds or fails, and
-- distances are whole kilometres); the lines and comments of the configuration file around its
-- strings and durations; internal/receivelog and internal/storage, which are SQL; the daemon's
-- wiring, the tools under cmd, the web client, and logging.
pub mod Callsign
pub mod ChannelShow
pub mod ChatStatus
pub mod Chatlog
pub mod Config
pub mod Console
pub mod DmStats
pub mod Events
pub mod HttpApi
pub mod Map
pub mod Meshcom
pub mod Netconsole
pub mod Outbox
pub mod PacketIngest
pub mod Positions
pub mod Prelude
pub mod Saving
pub mod SendCache
pub mod SerialBridge
pub mod Station
pub mod Stats
pub mod Telemetry
pub mod Tests
pub mod Text
pub mod Transport
pub mod UdpBridge
pub mod UdpForward
