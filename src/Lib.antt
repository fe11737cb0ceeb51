-- ===== src/Lib.antt =====
-- Claudodex runs Claude Code on an OpenAI Codex account. A local proxy takes Anthropic requests,
-- sends them to Codex, and turns the events of the Codex response into an Anthropic message stream;
-- the launcher starts a patched copy of the Claude executable that speaks to the proxy.
--
-- What is modelled, and where:
-- - Stream (internal/convert/stream.go): `StreamReducer`. The record `Reducer` has the struct's fields;
--   a method is a function from the reducer to its result, the events it returns and the reducer after
--   it (the monad `M`). The states that Go shares through pointers live in the lists `tools` and
--   `web_searches`, and the maps hold positions in them. `reduce_named` is `ReduceNamed`, and `run` is
--   a whole stream. Counts has the usage counts, Blocks and Thinking the text and thinking blocks,
--   Search the web searches, Tools and ToolArgs the tool calls, Failure the errors (with
--   internal/codex/errors.go), Finish the start and the end, Items and Reduce the dispatch.
--   Assemble is `AssembleMessage`, and Described what the events of a stream describe.
--   Client is an order for the events of the message stream, written from the protocol, which leaves
--   open when and how often a tool block stops; Slots says how its blocks and the tool states agree,
--   and Live that each method keeps this, from the single blocks (Marks, Blocks) to whole streams
--   (Whole). The files under Finish are about the tool blocks at the end of a message.
-- - Patch (internal/launcher/claude_binary_patch.go): the replacements in the bytes of the executable.
-- - ModelConfig (internal/modelconfig/catalog.go): the configured roles and the routing of model names.
-- - Effort (internal/convert/effort.go, and `OrdinaryReasoningLevels` of
--   internal/modelcatalog/resolve.go): how a request's effort or thinking budget becomes a reasoning
--   effort of the model.
-- - Catalog (internal/modelcatalog/resolve.go and compaction.go, internal/codex/models.go): the models
--   that an account has. Version compares versions, Resolve chooses a model for each role, and Windows
--   has the windows of context; `unless` and `Outcome` of Common are a Go result with an error.
-- - Codex (internal/codex/types.go): requests to Codex and the items of a conversation, and Equal, which
--   decides their equality as reflect.DeepEqual does.
-- - Chain (internal/proxy/chain.go): the conversations that the proxy has recorded, by key. Trace is the
--   trace of a response, and Identity the turns; `apply_implicit_resume_detailed` and
--   `apply_stateless_replay_detailed` make a request that refers to, or repeats, what is recorded.
-- - Convert (internal/convert/request.go, toolids.go and billing.go): `AnthropicToCodex`. Schema has the
--   schemas of tools, Tools the tools and the output format, Types the request and the result, Messages
--   the content of a message, System the loop over the messages, Instructions the texts that are added,
--   and Request the whole, which calls ModelConfig, Catalog and Effort as the code does.
-- - Json: decoded JSON values, and `Codec`, the parameters that stand for encoding/json and for the
--   readers of waiting times, which use floating point, a regular expression and the clock.
--   Other parameters of this kind are `Decoder` of Chain, `Library` of Convert (SHA-256, json.Marshal
--   and fmt.Sprint), and `Surroundings`, which adds the clock, random digits and two constant texts.
-- - Common: Booleans, lists, texts, integers and association lists that all parts share.
--
-- Loops: those of Patch run on fuel, and `none` is fuel that ran out; the theorems give a fuel that is
-- enough. The loop of `StripLongContext` and that of the reasoning summary get one round more than
-- their text has characters, and each round shortens it. Texts are counted in characters; the
-- delimiters and the cuts are ASCII. Token counts are integers without wrap, since they stay far below
-- 2^63.
--
-- In `ClampCallID`, a character that the cut would split is left out. Creation times are whole
-- microseconds.
--
-- Not modelled: network, files, processes, terminals, authentication, the update of the program,
-- the tables of patches, and logging. Also still outside are the JSON encoding
-- of requests, the decoding of server-sent events, and the retries of the messages handler.
pub mod Common
pub mod ModelConfig
pub mod Json
pub mod Patch
pub mod Effort
pub mod Stream
pub mod Catalog
pub mod Codex
pub mod Chain
pub mod Convert
