-- ===== src/Lib.antt =====
-- The client side of the Language Server Protocol: what the client keeps of the open documents, how
-- it applies the edits that a server asks for, and how it talks to the server. Paths are those of
-- the repository.
--
-- A `Client` (src/lsp_client/client/abc.py) picks a server to run, sends it requests and
-- notifications as framed packages, and answers what the server asks through registered hooks. It
-- keeps the text, version and encoding of every open document, with a count of who holds it, and
-- tells the server of each change. A server's workspace edit is applied to files and documents.
--
--   Base            helpers: tests, lists, integers, Python's dict, and computations that change a
--                   state and may raise
--   Host            the calls of pathlib, urllib, the file system and charset_normalizer, as a
--                   record of parameters; utils/uri.py; the exceptions (exception.py)
--   Lsp             positions and ranges, compared as pairs
--   Workspace       utils/workspace.py, and as_uri and from_uri of protocol/client.py
--   Document        client/document_state.py: open, close, register, unregister, the getters and
--                   the two operations that step a version
--   Edit            apply_text_edits of utils/workspace_edit.py
--   Client          open_files, read_file and write_file of client/abc.py, with the notifications of
--                   capability/notification/text_document_synchronize.py
--   WorkspaceEdit   the WorkspaceEditApplicator of utils/workspace_edit.py, and the answer of
--                   capability/server_request/apply_edit.py
--   Config          utils/config.py: merge, scopes and lookup
--   Framing         jsonrpc/parse.py: packages on a byte stream
--   Table           utils/channel.py and the request table of server/abc.py, with the route that a
--                   package takes
--   Dispatch        the loop of server/abc.py over the packages of a stream
--   Symbol          utils/symbol.py: lookup by path and position, the flat dict, the two traversals
--   Hooks           protocol/hook.py, and which hooks _dispatch_server_requests runs
--   Lang            protocol/lang.py and find_client of clients/lang.py
--   Startup         the order of servers that run_server of client/abc.py tries
--   Container       the mounts and arguments of server/container.py
--   Capability      what the mixins of a client class register, assert and hook:
--                   protocol/capability.py, capability/build.py, the packages of capability/,
--                   clients/deno/extension.py and utils/inspect.py
--   Clients         the client classes of clients/: commands, languages, mixins, configurations
--   Requests        the methods of capability/request/ that ask the server, and what they make of its
--                   answers
--   Answers         what the hooks of capability/server_request/ answer, and the configuration that a
--                   session starts with
--   Session         client/abc.py from initialize to exit, with response_deserialize of
--                   jsonrpc/convert.py
--   Local           run_process of server/local.py, and the installers of the clients
--   Sample          a host with its files in memory, for the tests
--
-- Stateful code is a function from a state to a result and a new state; an exception is an error
-- result, with the state as it was when it was raised. The client's state is a `World`: the open
-- documents, the disk, and the notifications sent so far. The operations of the document manager
-- are functions of the manager alone; the part of open before its first await is a function of its
-- own, so that calls may be interleaved there. The table of requests has a step relation for what
-- may happen to it in any order. A request about a file is a call of the client within open_files;
-- what the server answers, and what happens to the client until then, is a parameter, as are the
-- calls of the operating system under a local server. A class is the list of its mixins in the
-- order of resolution, and a capability of lsprotocol is a JSON object with its fields as keys.
--
-- Bounds and fuel: text is a list of code points; versions, positions and lengths are unbounded, as
-- in Python; a length that is written and read back is below 10 ^ 20, which keeps its header line
-- within the 65536 bytes that are looked through. The digits of a number n are written with fuel
-- n + 1, and a tree of symbols is walked with as many rounds as it has symbols.
--
-- Not modelled: a task group runs its tasks in the order in which they were started. A notification
-- that is not sent within the timeout counts as not sent, and a stream that fails as a timeout. The
-- streams of processes, sockets, containers that run, and the conversion of messages from JSON are
-- not modelled: cattrs and lsprotocol do it. Neither are the messages of the Deno client
-- (clients/deno/models.py) and the images of containers. Of the matching of JSON objects only which
-- keys are there is modelled. A hook of the registry is known by the name of its method, and an
-- exception of a server that does not start by a number.
pub mod Base
pub mod Host
pub mod Lsp
pub mod Workspace
pub mod Document
pub mod Edit
pub mod Client
pub mod WorkspaceEdit
pub mod Config
pub mod Framing
pub mod Symbol
pub mod Hooks
pub mod Capability
pub mod Clients
pub mod Requests
pub mod Session
pub mod Local
pub mod Answers
pub mod Lang
pub mod Startup
pub mod Container
pub mod Table
pub mod Dispatch
pub mod Sample
