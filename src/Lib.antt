-- ===== src/Lib.antt =====
-- StreamMix lets a viewer mix the audio tracks of a live stream. A publisher sends each track over a
-- side channel to a relay, the relay sends it on to the browser extension, and the extension plays it
-- beside the player's own sound, from which it subtracts the same track. This library is about the
-- TypeScript of the repository: the wire protocol in shared/ts/src, which publisher tools and extension
-- share, the extension in extension/src, and the command-line tools in tools.
--
-- The parts, from the wire up:
-- - Constants, Errors: shared/ts/src/constants.ts and errors.ts. A thrown `ProtocolError` is a value of
--   `Result`; the text of a message is a constructor with what the source puts into it.
-- - Header: shared/ts/src/header.ts. `encode_frame` and `decode_frame` are `encodeFrame` and
--   `decodeFrame` over lists of bytes. Header/Layout says where the bytes stand, Header/RoundTrip and
--   Header/Decoded how the two functions undo each other, Header/Lengths what becomes of cut input,
--   Header/Accepted which bytes are taken.
-- - Categories: shared/ts/src/categories.ts, the preset categories and the slugs.
-- - Json, Messages: shared/ts/src/messages.ts. Json has the values that `JSON.parse` returns; Messages has
--   the helpers, and a child for the codec of each message type; Messages/Codes is about what they throw.
-- - Relay: extension/src/relay/client.ts. Relay/Connection has the reconnecting socket as a step relation
--   over what the browser may do next; Relay/Dispatch has `handleMessage`, whose result is the callback
--   that is called.
-- - Audio: extension/src/audio. Audio/Decoder has the timestamps of decoder.ts, Audio/Decoder/Output the
--   planes of its `output` callback, and Audio/Decoder/Opus `createOpusDecoder` over the browser's
--   `AudioDecoder`, which may fail (Audio/Decoder/Faults); Audio/Scheduler has the start times and live
--   sources of scheduler.ts, Audio/Graph the Web Audio graph of graph.ts with its nodes numbered in the
--   order of creation.
-- - Platform: extension/src/platform/detect.ts, which page is which channel; Platform/Player: player.ts,
--   the promise of `waitForPlayer` over the calls of its observer. Platform/Segments and
--   Platform/Player/Settling say what the two look for without their helpers.
-- - Store: extension/src/store/prefs.ts, the saved preferences and the setting of a track.
-- - Content: extension/src/content/index.ts, the mixer that `mount` closes over: track lists, audio frames
--   and lanes in Content, the panel's callbacks in Content/Panel, runs of all of them in Content/Events;
--   Content/Saved has what is saved for the next page, Content/Staying what a new track list leaves as it
--   was, Content/Inherited what becomes of slugs such as "constructor", Content/Feed the callbacks given to
--   the relay client;
--   Content/Heard compares the gains and the delay of the audio graph with what the panel shows;
--   Content/Sound has the lanes with their decoders and schedulers, what the browser does to them (its
--   child Acts), and the sources that sound; erasing those gives the lanes of Content (Content/Sound/Runs);
--   Content/Mounting has `mount`, `unmount` and the observer of the address as a step relation, a mixer
--   being a number there, and its child Document the panels and the listeners that resume the audio context.
-- - Ui: extension/src/ui and extension/src/popup: the names and icons of the categories, the rows,
--   settings and controls of Mixer.svelte, whose calls are events of Content/Events
--   (Ui/MixerPanel/Controls), and the field of the popup.
-- - Tools: tools/mock-publisher/src/main.ts and tools/mock-subscriber/src/main.ts. The publisher's handlers
--   add the encoded frames to what was sent; Tools/Publisher/Stream hands that to the relay client of
--   Relay/Dispatch, Tools/Publisher/Playback on to the mixer of Content, through Content/Feed, and
--   Tools/Watching to the subscriber's handler of messages. The relay between them counts as passing the
--   messages on as they are.
-- - Common: bytes, texts, maps, integers and doubles, with the lemmas that the parts share. Examples:
--   concrete runs.
--
-- Conventions. A `number` is an IEEE double, of which the model keeps NaN, the infinities, and finite
-- values as an integer and a fraction; it is compared and cut to an integer, and never rounded. Stores
-- into typed arrays and `DataView` wrap to their width. A string is the list of its UTF-16 code units.
-- All loops are structural recursion, so no fuel is needed.
--
-- Code of the runtime is a parameter: the JSON text codec (`JsonText`, with the hypothesis
-- `IsReadBack` that one value is read back from its text), `toLowerCase` and `normalize`, `new URL`, the
-- audio clock (`AudioClock`, an order and the addition of a frame), the `AudioDecoder` of WebCodecs
-- (`WebCodecs`: a configured decoder takes a chunk, a closed one throws, and a failure closes it), the
-- division of an offset by 1000 and of a slider by 100, the rounded percentage, the spelling of a number in
-- base 16 and of an offset in seconds, what a document answers to a selector, times and random numbers, and
-- `chrome.storage.local`, which keeps what was set under each key.
--
-- Not modelled: the position of the panel's element; the fixed markup of Mixer.svelte and its styles; what
-- the tools print on opening, closing and in the heartbeat; the exceptions of the Web Audio calls in
-- graph.ts; the background script, which only logs; the opening of a WebSocket, the decoding itself and the
-- Web Audio nodes' sound, which are the browser's; the relay in Go and the publisher and plugin in C++,
-- which are other programs.
pub mod Common
pub mod Constants
pub mod Errors
pub mod Header
pub mod Categories
pub mod Json
pub mod Messages
pub mod Audio
pub mod Relay
pub mod Platform
pub mod Store
pub mod Content
pub mod Ui
pub mod Tools
pub mod Examples
