-- ===== src/Lib.antt =====
-- bash-agent, C implementation: a coding agent that keeps each session in a directory of JSON
-- lines and text files.
--
-- The parts and where they are modelled:
--   Base: tests of numbers, lists, and C strings. A C string is the list of the bytes before
--   its terminator; a pointer into it is a suffix, `peek` is `*p`, which reads 0 at the end,
--   and `next` is `p++`.
--   Util (c/util.c): Util/Buffer is StrBuf, Util/Escape its JSON and shell quoting, Util/Utf8
--   the sanitizing and the truncations, Util/Base64, Util/Paths (paths, blanks and sizes) and
--   Util/Decimal (numbers in text) the rest.
--   Json (c/json.c): Json/Value has JsonVal, JsonParse and the character scanners, Json/Parse
--   has json_parse and json_parse_root, Json/Decode has json_string_val, and Json/Query has
--   json_get, json_array_len, json_array_get and the value queries, and Json/Numbers
--   json_get_int. Json/Printed describes the texts that the program prints.
--   Store (c/store.c): Store/Conversation has the records of conversation.jsonl, the turn
--   count and store_conv_trim_tail, and Store/Stats has stats.json. The records are printed by
--   Util/Escape and read back by Json.
--   Tools (c/tools.c): Tools/Policy has the permission modes, Tools/Policy/Scan the scope of a
--   path, Tools/Policy/Commands the scan of a command, Tools/Format the shortening of results,
--   Tools/Files tool_read, tool_write and tool_edit, and Tools/Commands the other tools, the
--   guard and tool_dispatch. The input of a tool is read by Json, the guard asks the policy
--   about a command that stands for the access, and the files are a function that is passed
--   along.
--   Transport (c/transport.c): Transport/Events is the accumulator of stream events,
--   Transport/Claude the events of the Claude protocol, read by Json, and Transport/Lines the
--   cutting of a response into lines, which uses the buffer of Util.
--   Queue (c/msgqueue.c): the message queue on a heap of nodes, each operation one step.
--   Protocol (c/protocol.c): the messages of the queues and their constructors.
--   Agent (c/agent.c): Agent/Events has the records of events.jsonl, Agent/Stream the callback
--   of a stream, Agent/Replay agent_replay_events, Agent/Summary the line that is shown for a
--   tool call, and Agent/Results the results of sub-agents and background tasks.
--   Agent/UserLines has the lines of user messages, Agent/Compact chooses how much of the
--   conversation is kept, over an interface of the operations on `double`, and Agent/Context
--   is agent_compact_context, which is given the call of the model as a function. Agent/Turns
--   has the rounds of agent_loop, Agent/Turns/Whole its start and its end, and Agent/Goal
--   agent_goal_judge; the answers of the model and the results of the tools are functions
--   there, and the bound on the rounds is max_turns. They write through Store and read through
--   Json; a display queue is the list of the messages that were pushed.
--   Tests: runs on concrete inputs.
--
-- Correspondence. A JsonVal is the suffix of the input at `start` with the length `end - start`.
-- A read past the terminator, which the scanner of strings can do behind a backslash, is an
-- outcome of its own (`overrun`, `past_end`): nothing is said of the value that such a read gives,
-- and a caller that only tests the value takes it for none. A write of a file ends in full, behind
-- some bytes of the emptied file, or with no file opened (Util/FileSystem).
-- Memory allocation is taken to succeed.
--
-- Fuel. json_parse_internal recurses through parse_array and parse_object. The model runs on fuel
-- `2 * strlen + 1`, since each round that goes on has read a byte; json_get, json_array_len and
-- json_array_get run on one round per byte of the rest of the input. The loop of sb_ensure doubles
-- and has as many rounds as bytes are needed. The other loops are structural recursion.
--
-- Parameters: the programs that tool_bash, tool_glob, tool_grep and tool_edit run, and which files
-- are there; what the model answers to a request, and what the execution of a tool gives to
-- agent_loop; and the arithmetic of `double`. Sizes and counts are numbers without a bound, except
-- where the source relies on the wrap-around of `size_t`, and in sb_ensure_wrapping: there it is
-- written out.
--
-- Not modelled: terminal and socket input and output, the HTTP client, threads, process control,
-- the time, and the parsing of floating-point numbers: they are the operating system's. The prompt,
-- the bodies of the requests and agent_main_loop are left as well.
pub mod Base
pub mod Util
pub mod Json
pub mod Store
pub mod Tools
pub mod Transport
pub mod Queue
pub mod Protocol
pub mod Agent
pub mod Tests
