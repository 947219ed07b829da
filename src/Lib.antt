-- ===== src/Lib.antt =====
-- getsloth shares one terminal: a host process runs a shell in a pseudo-terminal, viewers join from
-- a browser, and a relay between them forwards output and input, decides who may type, and never
-- sees the password. This library models the relay (internal/relay), the messages
-- (internal/protocol/message.go), and the parts of the host process (cmd/getsloth,
-- internal/hostauth) that the relay talks to, and proves what keeps a session safe.
--
-- Files, and the code that they model:
--   Base, Base/*             lists, Boolean tests and association maps that the parts share
--   Protocol                 internal/protocol/message.go: constants and messages
--   Relay/RateLimit          internal/relay/ratelimit.go: `rateLimiter`; under it the keys, the
--                            cooldown, the cap on attempts in flight and `clearSession`
--   Relay/Connection         connection.go and `healthQuality` of health.go
--   Relay/Session            session.go: `Session` with its operations, and the world of a session
--   Relay/Presence, Chat, KillSwitch, Control, Auth, Probes
--                            presence.go, chat.go, killswitch.go, control.go, auth.go and health.go:
--                            the handlers
--   Relay/Auth/*             the one place of a remote session, reconnecting with a token, and what the
--                            kill switch takes away
--   Relay/Server             server.go and the dispatch of auth.go
--   Relay/Server/Steps       the goroutines of one session as a sequence of steps
--   Relay/Server/Cases       which handlers a message can reach, as one rule per dispatch
--   Relay/Server/*           properties of all runs: the grid, who is the host, the control machine
--                            of docs/protocol.md and its refinement, who is sent what, who is let in,
--                            what the host is told, the host's override, viewers that were kicked,
--                            what a session can reach, and the output that a newcomer is shown
--   Relay/Registry, Registry/*
--                            the server with all its sessions: `Registry` of session.go, and server.go
--   Host/Keyboard, Grid, Output
--                            cmd/getsloth: `gatedWriter` and the terminal size (pty.go), and
--                            `relayOutputWriter` (relay_client.go)
--   Host/Secret, Password    internal/hostauth/hostauth.go: the check of a password, and
--                            `generatePassword` (cmd/getsloth/password.go)
--   Host/Status, Host/Status/*
--                            cmd/getsloth/host_status.go: what the host shows of its session
--   Host/Loop, Follow, Follow/Late
--                            `runHostMessageLoop` (cmd/getsloth/auth.go), alone, behind the relay, and
--                            when two of the relay's writes overtake each other
--   Host/Control, Host/Control/*
--                            cmd/getsloth/host_control_server.go and the actions that main.go sets,
--                            and the way of a request to the relay
--   Host/Launch, ModePicker  main.go up to the connection, and session_mode_tui.go
--   Host/Process, Process/*
--                            main.go from the connection on, shareurl.go and `connectHost`
--   Host/QrCode, QrCode/Scan qrcode.go without colours
--   Console/Client           the requests of host_control_console.go and host_control_bubbletea.go
--   Console/Screen, Screen/*, Keybar
--                            the state of the console and its `Update` (host_control_bubbletea.go),
--                            its key bar (host_control_tui.go) and its keys
--   Console/History, Charts, Charts/*
--                            host_control_graph.go: the history of round-trip times and the
--                            arithmetic of the charts
--   Console/Layout, Layout/* host_control_layout.go: how the terminal is divided
--   Console/Canvas, Draw, Draw/*
--                            the panels of host_control_layout.go and the charts of
--                            host_control_graph.go as lines of text
--   Console/Panels, Join, Dashboard, each with its parts under it
--                            host_control_layout.go: the views and the whole screen
--   Console/View             `View` of host_control_bubbletea.go, and the small screen of
--                            host_control_tui.go
--   Tests, Tests/*           concrete sessions, and the theorems at them
--
-- How the code is modelled. A handler of the relay is a function from a world to a world and the
-- messages that it writes, in order. A world is the session, the heap of connections, in which a
-- number stands for a Go pointer, and the limiter of the server. `session.mu` makes a handler's
-- change of the session one step, and a run is a list of steps in the order of the locks. The
-- handlers write their messages after they have given the lock back, and three of auth.go take it twice:
-- a run has these parts of a handler together, so what is said of a run's messages is said of their
-- order in the handlers. Follow/Late shows what another order does. What
-- handlers read from outside is an argument: the clock, the random identifiers (`none` where the
-- generator fails), and encoding/json as a `Decoder`, which gives `none` for an error. A map is an
-- association list with one entry for each key, and a loop over a map visits it in list order. A
-- Go `int` that counts columns or rows is a natural number: a negative one is refused wherever the
-- code refuses a number below 2. Times are nanoseconds since the zero `time.Time`, and 0 is the
-- zero time. No loop of the relay needs fuel: each is recursion on a list.
--
-- The host process and its console are further processes. Their sockets are sequences of messages,
-- the library calls that they rest on are arguments, and each error of such a call is a value. The
-- two loops over bytes, `relayOutputWriter.Write` and `hardWrap`, run on fuel: the number of bytes,
-- since each turn takes at least one.
--
-- Not modelled: sockets and their failures (a write is an event), the HTTP upgrade and the routes,
-- memory that maps keep; the colours of the terminal user interface and the texts of the picker, the
-- launcher, the operating-system layers of the pseudo-terminal and of signals; the browser client in
-- web/.
pub mod Base
pub mod Protocol
pub mod Relay
pub mod Host
pub mod Console
pub mod Tests
