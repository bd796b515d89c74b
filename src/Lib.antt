-- ===== src/Lib.antt =====
-- Lem runs language models on a user's own machine and lets the user's browser reach them from
-- anywhere. The local server (server/app) keeps a tunnel to the browser, over a WebRTC data channel
-- or, where none can be had, over a relay. HTTP and WebSocket traffic is cut into binary frames;
-- at the server's end a dispatcher hands each frame to the HTTP proxy or the WebSocket proxy, which
-- talk to local services. In the cloud, the signaling server (cloud/signaling) brings the two
-- devices together, and the relay server (cloud/relay) joins their two WebSockets in a session.
--
-- The files, and the code that each models:
--   Base          lists, dictionaries and results; `Exn` are the exceptions the code raises
--   Text          Python's `str` as a list of code points, `bytes` as a list of numbers, UTF-8
--                 with its errors, and the `str` methods that the program calls
--   Wire          `struct.pack` and `struct.unpack` of big-endian words, and reading at an offset
--   Json          `json.dumps` and `json.loads` of a frame's headers, an interface
--   Tunnel
--     FrameType, HttpFrame     server/app/tunnel/http_frame.py
--     WsFrame                  server/app/tunnel/ws_frame.py
--     Router                   server/app/tunnel/router.py
--     HttpProxy                server/app/tunnel/http_proxy.py
--     WsProxy                  server/app/tunnel/ws_proxy.py: State (`__init__`, `start`, `stop`),
--                              Connect (the three frame handlers), Relay (the task of a connection)
--     Dispatcher               server/app/tunnel/message_dispatcher.py
--     RelayClient              server/app/tunnel/relay_client.py
--     Frame                    the frames of all five kinds together
--     Manager                  server/app/tunnel/manager.py
--     Agent                    server/app/tunnel/webrtc_client.py: State (`__init__`, sending,
--                              `disconnect`), Reconnect (connecting, reconnection, the relay),
--                              Messages and Requests (signaling, relay sessions), Runs (all of it)
--   Server
--     Database                 server/app/db.py
--     Login                    server/app/api/v1/auth.py, over Database and Tunnel.Manager
--     App                      server/app/main.py: start-up, shutdown, and the tunnel's endpoints
--     Endpoints                the same file, the endpoints over the drivers
--     Drivers                  server/app/drivers: Ports, Harbor and Checks (harbor_wrapper.py),
--                              Services (runners/ollama.py and clients/openwebui.py) and Models
--                              (the API calls of runners/ollama.py)
--   RelayServer
--     Session, Exchange        cloud/relay/app/core/session_manager.py, `RelaySession`
--     Manager                  the same file, `SessionManager`, and cloud/relay/app/api/relay.py
--     Access                   cloud/relay/app/core/security.py, the token check of relay.py,
--                              and cloud/relay/app/api/health.py
--   Signaling
--     Connections, Message, Endpoint   cloud/signaling/app/api/signal.py
--     Accounts                 cloud/signaling/app/api/auth.py and devices.py, with the tables of
--                              cloud/signaling/app/db/database.py
--     Schemas                  cloud/signaling/app/models/schemas.py, the relay's coordination
--   EndToEnd      the parts together: requests over the relay and its client (Relayed), how a relay
--                 session is agreed on (Handshake), the agent's messages and their schema (Typed),
--                 and the status of a tunnel that is started and falls back (Status)
--   Tests         the definitions on concrete inputs
--
-- State is passed explicitly. Objects that only have an identity here (sockets, tasks) are numbers,
-- and the calls that the program makes on them are recorded in its state in the order in which they
-- are made. Where a coroutine waits, other coroutines run: a handler that awaits takes what they do
-- to the shared state as an argument (`meanwhile`, `others`), and the relay server runs under an
-- explicit schedule of steps, each from one `await` to the next. Code outside the repository is an
-- argument: what aiohttp answers and whether a socket takes a call (the records named `World`),
-- `urllib.parse` (`Urllib`), JSON, aiortc (`Peer`), and token decoding with the device table (`Auth`). Of JSON it is
-- assumed that `loads` returns what `dumps` was given and that `dumps` writes ASCII, as it does by
-- default.
--
-- Every definition is structurally recursive: the frame readers advance by the lengths that they
-- have read, and the endless loops of the program run over the list of what they meet: events,
-- messages, or attempts to reconnect. Nothing runs on fuel. Numbers are natural numbers;
-- `struct.pack` refuses what does not fit its 8, 16 or 32 bits.
--
-- The tunnel agent is a state with the steps that others can make it do, in any order. A
-- reconnection that sleeps, or that is created and has not run, is a count in that state, since
-- several can be under way at once; aiortc's peer connections are numbers with a record of what they
-- were told. The manager sees an agent through the calls that it makes, and how its `connect` ends is
-- an argument there; the login runs over the manager and the database. The signaling server's
-- accounts take what other requests do between two statements as an argument. Passwords and tokens
-- are the interface `Security`, which assumes that a password verifies against its own hash and that
-- a token reads back until it expires; `AuthJson` assumes that a stored login reads as it was
-- written.
--
-- Some calls that wait are single steps. An attempt of the agent to reconnect runs to its end before
-- the agent's next step, a relay session closes its two sockets at once, and the fields of a request
-- to connect are texts or left out, where the code takes any JSON value.
--
-- Not modelled: logging; the time that a timeout takes; the main modules and the configuration of
-- the two cloud servers; PostgreSQL; pydantic's schemas, but for those of the relay coordination and
-- what the accounts check; the demonstration server/examples; and the web front end (web).
pub mod Base
pub mod Text
pub mod Wire
pub mod Json
pub mod Tunnel
pub mod EndToEnd
pub mod RelayServer
pub mod Signaling
pub mod Server
mod Tests
