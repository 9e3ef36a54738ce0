-- ===== src/Lib.antt =====
-- VoxHF: a verification library for the pilot proxy and its relay.
--
-- The program. A local agent (proxy.js and proxy/) sits between a flight-simulator client and the
-- network; a relay (apps/relay/) carries messages between the agent and a browser (webapp/). Every
-- message that crosses the relay goes through the shared rules of packages/protocol/index.js. When
-- the agent drops, the relay's watchdog (apps/relay/agent-watchdog.js) sends push requests that the
-- agent had sealed and deposited beforehand. The agent also keeps a UNICOM reminder
-- (proxy/unicom-timer.js), whose state the relay may replay, and exchanges MessagePack frames with
-- the simulator's PilotCore (proxy/pilot-core.js), sends the pilot's voice connection to the right
-- TS2 server (proxy/ts2-voice-router.js), and wraps Speex packets into Ogg pages and back
-- (proxy/ogg-speex.js). In the relay (apps/relay/index.js) a browser confirms an agent's pairing code,
-- selects the device and sends it commands and audio; the agent's updates and audio go to the browsers
-- that selected it.
--
-- The files.
--   Prelude      texts as lists of UTF-16 code units, their UTF-8 length, Booleans, lists, options
--   Json         JavaScript values as JSON.parse gives them, and the objects' operations
--   Url          what is read of a parsed URL
--   Dict         a Map with string keys, in insertion order
--   Protocol     packages/protocol/index.js. Types: MESSAGE_TYPES and SOURCE_RULES. Checks: the field
--                validators isId to isIsoLike. Shape: requireShape and noExtraPayload. Snapshot: chat,
--                timer and station payloads. Weather: the weather payload. Payload: validatePayload.
--                Message: validateRemoteMessage and parseRemoteJson. Version: parseVersion and
--                compareVersions. The proofs are in the modules named Laws, Same, Idempotent,
--                Stations, Timer and Bounds.
--   UnicomTimer  proxy/unicom-timer.js: start, cancel and expire, and traces of them
--   Watchdog     apps/relay/agent-watchdog.js: stage, commit, disarm, agentOnline, agentOffline, fire
--                (fire_begin up to its await, fire_finish after it), cleanup, getState and dispose.
--                Endpoint: isAllowedPushEndpoint and sendSealedPushTicket up to the fetch. Valid,
--                Preserved, Fire, Isolation and Trace hold the proofs.
--   PilotCore    the MessagePack messages of proxy/pilot-core.js. Encode: encodeMessagePack and
--                makeMessagePackFrame. Decode: decodeMessagePack. Frames:
--                createMessagePackFrameReader. Fuel, RoundTrip and Stream hold the proofs.
--   VoiceRouter  proxy/ts2-voice-router.js: onClientPacket, onClientClose, resetUdpClients and
--                clearActive. Endpoint: getEndpoint. Listeners: what the transports of a route
--                report. Session, Reserved and Failed hold the proofs.
--   Framing      readers that find frames in a stream of chunks
--   OggSpeex     proxy/ogg-speex.js. Write: OggSpeexWriter. Read: OggPacketReader. Pages, RoundTrip
--                and Speech hold the proofs.
--   Relay        the messages of apps/relay/index.js. Access: canClientAccessDevice and the
--                authorizations. Codes: pairing codes. Devices: the lists of message types and the
--                snapshots. Transmit: a browser's transmission. Browsers: the list, the selection and
--                the commands. Revoke: revokePairing and disconnectRevokedPairingClients. Agents:
--                registerAgent, the agent's updates and audio, removeClient. Tickets: the watchdog's
--                messages and onFired. Messages: allowRate, the `message` callback, handleMessage and
--                handleBinaryMessage. The map of connections is keyed by the names of sockets, and an
--                operation takes the connection's entry beside the state. The modules named Laws,
--                Guard, Once, Fresh, Rates, Forward, Reach and Safe, and those under Valid, hold the
--                proofs; Connection is a connection's beginning.
--
-- Conventions. An operation takes the state and returns the new state, with what it asks of its
-- surroundings as a list of effects in order. The clock's value and the handle of a new timer are
-- arguments, the clock's one value for a whole call. An instant is a number of milliseconds, where
-- the source goes through ISO texts. A number of a message is exact: a finite double is n / 2 ^ k
-- with a sign, and the protocol code only compares numbers. Loops are structural recursion, but for
-- the decoder and the frame reader of PilotCore, whose fuel is the number of bytes that are left:
-- each of their steps takes at least one; the reader of Ogg pages has as much, for the same reason.
--
-- Parameters. `new URL`, JSON.parse, Date.parse, net.isIP, toLowerCase, toUpperCase, trim,
-- localeCompare, SHA-256 and Buffer's codecs belong to the platform, and are arguments of the
-- definitions that use them. Nothing is assumed of them, but that a given text survives UTF-8 where
-- PilotCore.RoundTrip.Plain is a hypothesis, and that a new device id is not empty in the steps of
-- Relay.Valid.Run.
--
-- Not modelled. Sockets, HTTP, child processes, the database, the page of the browser and the logs;
-- what proxy/pilot-core.js does besides MessagePack; the end of the voice router; of
-- apps/relay/index.js authorizeUpgrade, the heartbeat, the HTTP routes, accounts, persistence,
-- audit and the limits on HTTP requests and invites; messages that a socket still delivers after
-- closeClientsForUser, closeAgentClientsForUser or closeBrowserSessionClients took it out of the
-- map by removeClient; the place of keys that spell an array index, which JavaScript lists first;
-- the remaining files of proxy/ and apps/relay/.
pub mod Prelude
pub mod Json
pub mod Url
pub mod Dict
pub mod Protocol
pub mod UnicomTimer
pub mod Watchdog
pub mod Framing
pub mod OggSpeex
pub mod PilotCore
pub mod Relay
pub mod VoiceRouter
