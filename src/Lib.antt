-- ===== src/Lib.antt =====
-- go-gwiot is a gateway on a vehicle: it collects status and event messages from a local broker,
-- shortens them, sends what changed to a platform, and keeps what could not be sent in a database
-- for a later replay. This library models the parts that decide what is kept and what is sent.
--
-- State: status messages (internal/state). State.Value is Go's interface{}, with maps as sequences
--   of entries in the order of one iteration; State.Keys holds keys2Abrev, keysStatic and
--   keysRemove; State.Replace is ReplaceKeys, State.Slice compareSlice, State.Compare
--   funcCompare_v2 and OnlyChanges, State.Compare.First funcCompare; State.Compare.Unordered
--   takes away the order of maps. State.Actor is the Receive and groupID of status-actor.go, which
--   renames a message, stamps it, compares it with the last one and sends the outcome to the app;
--   State.Runs is any sequence of messages, with a new actor after a panic.
-- Database: the store of messages (internal/database). Database.Bolt and Database.Storage say what
--   the code relies on of bbolt, Database.Repo is repo.go (PersistData, GetData, RemoveData,
--   SearchCollections, QueryData, Last), Database.Messages messages.go, Database.Fsm the table of
--   fsm.go, Database.Actor the two behaviours of actor.go with the callbacks of fsm.go. A handler is
--   a function from the actor to the actor, with what it sends to itself and to the sender;
--   Database.Actor.Lifecycle makes of it a system with a mailbox, into which any message may come
--   at any time.
--   Database.Service is service.go: a call is a request to the actor and its first answer;
--   Database.Service.Query is its Query, with the child actor that takes the rows: when the child is
--   poisoned, and whether the acknowledgement overtakes the last row, are arguments.
-- Events: the events actor (internal/events): its queue, over any sequence of messages.
-- Remote: the remote actor (internal/remote). Remote.Numbers is what it uses of strconv, fmt and time,
--   Remote.Prepare is prepareMSG, Remote.Replay the closure that a replay calls for each record, and
--   Remote.Actor its Receive: it hands messages to the client, keeps those that it could not hand
--   over through the database service, and replays them when the client is back.
-- RemoteMqtt: the client of the platform (internal/remote-mqtt), which answers the remote actor:
--   Receive, and sendMSG of client-mqtt.go. RemoteMqtt.Client is client and connect of that file:
--   the options and the login. RemoteMqtt.Lost joins it with Remote.Actor.
-- RemoteNats: the other client (internal/remote-natsio), which stands for the remote actor and its client
--   at once: Receive, connect and the tickers of remote-actor.go, connect and sendMSG of client-nats.go.
--   A panic leaves the object as it is, so RemoteNats.after says what is left of the state then.
--   RemoteNats.Tokens joins it with Keyc.
-- Keyc: the keycloak actor (internal/keyc), which answers requests for a token and for the group.
--   Keyc.Sources is what keycloak.go and internal/remote-mqtt/jwt.go ask of the libraries.
-- PubSub: the gateway to the local broker (internal/pubsub), from which status and events come. A
--   message stands with the topic filter of the subscription that it meets, as the MQTT library finds it.
-- Hostname: Hostname and SetHostname (internal/utils/utils.go): the name under which the device publishes.
-- Certificates: LoadLocalCert (internal/utils/utils.go), over the files of the directory.
-- StatusMessage: Status and its ReplaceKeys (messages/status.go).
-- App: the app actor (internal/app), which starts the others and makes of status messages and events
--   the messages of the remote actor; App.Messages joins it with State.Actor and with Remote.Actor,
--   App.Group with Keyc.
-- Main: getENV, and what main makes of the flags (main/main.go, internal/env/sibus.go); Main.Settings joins
--   it with App, Main.Wiring with Remote.Actor.
-- Pipeline: an event through the events actor, the app actor and the remote actor; Pipeline.Stored: a
--   message from the remote actor through the database service into the file; Pipeline.Arrival: the
--   messages of the local broker, through PubSub and parseEvents, to the events actor.
-- Prelude: tests on ℕ, lists, bytes, and results that may be a panic.
--
-- A panic of Go is a value, and so is an error. A float64 is its bit pattern, with Go's equality;
-- its product is a parameter of State.Actor. bbolt, looplab/fsm, uuid and time are parameters;
-- Database.Memory has a store that meets the laws of bbolt. A loop over a cursor runs on fuel: one
-- more than the bucket has entries is enough, as the theorems on the loops show.
--
-- Not modelled: logging and sleeping, encoding/json, the clients of HTTP, OAuth 2 and keycloak (what
-- they make or answer is an argument), the timers themselves, and files that are not built.
pub mod Prelude
pub mod State
pub mod StatusMessage
pub mod Hostname
pub mod Certificates
pub mod Database
pub mod Remote
pub mod RemoteMqtt
pub mod Keyc
pub mod RemoteNats
pub mod PubSub
pub mod Events
pub mod App
pub mod Main
pub mod Pipeline
