-- ===== src/Lib.antt =====
-- Verification of tgpager, an Alertmanager webhook that pages one person by a Telegram call and leaves
-- a voice message or a text in the chat.
--
-- The program, and the files that model it:
-- * A webhook arrives at internal/server/server.go, with a payload of internal/alertmanager. The handler
--   (handleAlertmanager, enqueue, Done) is Server.antt over the payload of Alertmanager.antt. Handlers
--   run beside the loop of cmd/tgpager/main.go that takes pages from the queue; Server/Interleaving
--   splits both at the points where the mutex or the channel lets another go first, and steps between
--   the states of the whole (a relation). Server/Handler has the branches of one request,
--   Server/Invariant and Server/Drain what holds of all runs, Server/Refinement the abstract machine of
--   one alert group, and Server/Measure what bounds the steps. Server/KeySet is the in-flight map as a set, a
--   quotient of the lists of its keys, Server/Desk the abstract server over it, and Server/History the
--   webhook server and the abstract one over a history of webhooks and pages.
-- * The loop gives each page to processPage, which is Main.antt, with sendVoice, sendText, placeCall and
--   voiceSpec. It lists what a page does as deeds in order. Main/Reaches, Main/Files and Main/Fit read
--   such lists. Main/Linked gives the page the parts of the program: the speaker, the client with the
--   stream of its calls, the renderer and the reader of recordings.
-- * Main/Startup is the start of cmd/tgpager/main.go: main, runCheck, runVoice, runLogin, and run up to its
--   goroutines, from the configuration to the client, the server and the speaker; Main/Startup/Run opens
--   and closes the peer cache around it. Main/Serving is the rest of run: its four goroutines, their
--   group and the shutdown, as happenings beside the steps of Server/Interleaving.
-- * The client is internal/tgcall. Tgcall/Retry is retry and retryWait of call.go, Tgcall/Call the rest
--   of that file, Tgcall/Peer the parsing in peer.go, Tgcall/Client client.go and the resolution in
--   peer.go, Tgcall/Message voice.go, text.go and inputPeer, Tgcall/Errors what text.go reads of errors,
--   Tgcall/Terminal the prompts of auth.go, Tgcall/Metrics metrics.go, and Tgcall/Logger logger.go.
-- * internal/peercache is PeerCache: Codec has the keys and the 64-bit values, Storage the operations.
-- * internal/audio is Audio: Ogg is ogg.go, Spec the spec of stream.go, Compose the arguments of ffmpeg in
--   ffmpeg.go and render.go, and Stream the loop of Stream, Render and the errors of ffmpeg.
--   Compose/Graph and Compose/Items read such arguments back.
-- * internal/config is Config: Modes has the voice and text modes, Secrets is secret.go, Load has the
--   records, resolveSecrets and Load, Schema the values that the descriptors admit and their defaults, and
--   Documents the reference and the schema with the command config/gen that writes them.
-- * internal/tts is Tts: Cache is cache.go over the files of one directory, Synthesizer tts.go, Command and
--   OpenAi the two providers, Speaker speaker.go and the rendering of template.go, Preflight the
--   preflight of speaker.go, Metrics its instruments, and Build build.go with NewTemplate.
-- * Telemetry has the instruments that Tgcall/Metrics, Server/Metrics and Tts/Metrics make. Tracing has the
--   deeds on spans: Tgcall/Spans has those of a call, Tgcall/Message/Spans those of the messages, and
--   Tts/Spans those of the speaker and of the providers. Tracing/Nesting counts the spans that are open.
-- * Base has lists, texts as bytes, int64 values and the pairs of Go; Strconv, Spaces and Strings are what
--   the code uses of strconv and strings.
--
-- Outside the model, as parameters: the JSON decoder (an argument of handle_alertmanager), Go errors
-- and the inspection of Telegram's (the record ErrorLib, with the law that wrapping keeps what is
-- inspected), Telegram's answers (Telegram), bbolt (PeerCache/Bolt, with the laws of put and get),
-- the calls of os (Os, OggFile, Parts, Disk, and Surroundings with the execution of templates),
-- SHA-256 and the sorting of the cache, and the speaker and the renderer (Parts). The JSON encoder and
-- the HTTP exchange are the record Endpoint, a child process the record Machine, the parser of templates
-- and the test of a float stand in Site. For a stream, Meeting has the socket, the start of ffmpeg and
-- the readings of its packets in order, and the RTP decoder and the receiver of packets are arguments.
-- The group of goroutines is the record ErrGroup, with the laws that golang.org/x/sync/errgroup documents:
-- the context of the group is done when a goroutine fails or the outer context ends, and Wait returns the
-- first error. A meter says of each instrument whether it makes it.
-- Meets of Main/Linked gathers what one page meets of all these.
-- How a try of a call or of a message ends, and whether the context ends around it, is an arbitrary
-- function of the number of the try. Concrete instances stand in Tgcall/Sample and in the Tests modules.
--
-- Bounds: an int64 is an integer with its range as a hypothesis where it matters, and durations wrap
-- where the code's arithmetic does (samples_duration). format_int writes with twenty digits of fuel,
-- which holds every 64-bit number; trim_space spends at most one step a byte; scan_back recurses on the
-- position that it scans down from. retry recurses on the tries that are left, preflight on the attempts.
-- read_labels has a step for each byte of the filter, and one more. stream_loop runs over a finite list
-- of readings, and says when it still runs behind the last.
--
-- Not modelled: the timeouts of the HTTP server, the routing of HTTP, and what figureout does to
-- decode the configuration and to generate its documentation. Timeouts are part of how an exchange, a
-- command or a call ends.
pub mod Base
pub mod Alertmanager
pub mod Server
pub mod Audio
pub mod Strconv
pub mod PeerCache
pub mod Spaces
pub mod Strings
pub mod Config
pub mod Telemetry
pub mod Tracing
pub mod Tgcall
pub mod Tts
pub mod Main
