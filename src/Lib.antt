-- ===== src/Lib.antt =====
-- pylyskom is a client library for LysKOM servers (Protocol A, versions 10 and 11). A client sends
-- requests as lines, each with a reference number, and reads from one stream of bytes the replies to
-- its requests, in any order, and the asynchronous messages between them.
--
-- How the parts interact. All files named here are in `pylyskom/`. `protocol.py` reads numbers and
-- prints strings; `datatypes.py` builds the readers and printers of all types from these;
-- `asyncmsg.py` has a reader for each message number, `requests.py` a class for each request and a
-- reader for each reply, `errors.py` a class for each error number. A connection (`connection.py`,
-- and `AioConnection` in `aio.py`) holds the receive buffer and the requests that wait, and uses
-- those tables to parse a response. A client (`cachedconnection.py`) waits for its own reply, and
-- hands messages to handlers that invalidate its caches. A session (`komsession.py`) calls the
-- caching client; `AioClient` (`aio.py`) does for `AioConnection` what the client does for the
-- connection, with tasks. `stats.py` counts.
--
-- Files:
--   Base, Base/*: names from the libraries, Boolean tests, lists measured by native numbers.
--   Result, Exec, Exec/*: the exceptions that the code raises; code on a state that may raise;
--     `Stable`, code that does not care where the received bytes stop.
--   Dict: Python's dict with numbers for keys.
--   Errors: `errors.py`.
--   Protocol, Protocol/*: `protocol.py`. A reader takes the bytes that the buffer has not handed out.
--   Buffer, Buffer/Refines: `ReceiveBuffer` of `connection.py` and `AioReceiveBuffer` of `aio.py` with
--     their fields, beside the bytes that they have not handed out.
--   Datatypes, Datatypes/*: `datatypes.py`, a module for each family of types.
--   AsyncMessages, AsyncMessages/Dispatch: `asyncmsg.py`; `async_dict` is a dict of readers.
--   Requests, Requests/*: `requests.py`: `Request.__init__` is `new_request`, `Request.to_string` is
--     `request_to_string`; Calls/* has the request classes, Responses `response_dict`.
--   Connection, Connection/*: `AioConnection`. Its methods are the functions of the same names without
--     the leading underscore; the stream reader is the list of chunks that `read` returns, the stream
--     writer is the bytes written so far.
--   Connection/Blocking, Connection/Agreement: `Connection` of `connection.py`, beside
--     `AioConnection`. `read_payload` is its `_parse_response`, `send_blocking` its `_send_request`.
--   AioClient, AioClient/*: `AioClient` of `aio.py`. A function is what a task does between two awaits:
--     `_request` is `send`, `register` and `wake`, the receivers' rounds are `receive` and
--     `handle_message`, and `fail`, `cancel` and `read` are what awaits end in; Steps says in which order
--     the tasks may go on.
--   Client, Client/Queues: `Client` of `cachedconnection.py`; the connection is the list of what its
--     `read_response` returns or raises, and the handler what it returns or raises on a message.
--   Cache, Cache/*: `Cache` and the handlers of `CachingClient`.
--   AioCache, AioCache/Fresh: `AioCache` of `aio.py`. A function is what a task does between two awaits of
--     `get`, or what the server does; `Step` says in which order these may follow each other.
--   Memberships, Memberships/Positions: what `CachingPersonClient` remembers.
--   Caching, Caching/*: `CachingPersonClient` with what it inherits, over `ClientApi`, the `request` of
--     its client: an outcome, and the messages that are handled meanwhile. Renames has what is relied on
--     of the server for names. Names has the lookups by
--     name, Unread `get_unread_texts_from_membership`, Members the methods of the subclass.
--   Session, Session/*: `KomSession` of `komsession.py`, over `CachingPersonClient`; its client is
--     `none` for None, and what closing the client does is a parameter. Kom has the values that it
--     returns; Names, Memberships, Texts, Compose, Reading and UserAreas its methods and those of
--     `KomText`, where JSON and base64 are parameters, too.
--   Stats, Stats/*: `stats.py`.
--   Utils, Utils/*: `utils.py`. In `parse_hollerith_string`, `none` stands for a loop that never ends;
--     Mime has the content types, with `mimeparse` and Python's codecs as parameters.
--   Tests: the theorems at concrete inputs.
--
-- Fuel and bounds. Python's integers are unbounded, and so are these. The loop that fills the
-- blocking buffer runs on fuel: each round receives a byte at least, so the number of bytes asked
-- for is enough rounds. Reading the names in a user area runs on their bytes plus one, as each round
-- takes a byte. Printing a number runs on the number plus one, more than its digits. A gap between
-- read ranges is asked for in rounds of one text at least, so its length is enough; the questions
-- behind the last read range run on any number beyond the last text. All other loops are structural:
-- on the bytes, the chunks, the responses or the elements.
--
-- Exceptions are the values of `Error`. The Python exceptions that have no class of their own there,
-- and the outcomes on values that no caller of the library passes, are `unspecified`.
--
-- Not modelled: opening and closing of sockets, requests given as raw bytes, the methods of the
-- asynchronous caching clients and the asynchronous session, which repeat the blocking ones,
-- handlers that an application registers, the socket of Graphite, `run_every` of `stats.py`, whose
-- times are floats, the JSON form of messages, and printing for people, equality and conversion of
-- the data types. Calls of the counters of `stats.py` are left out where other code makes them.
-- `mimeparse.py` is a copy of another project's code, `komauxitems.py` is generated.
pub mod Base
pub mod Result
pub mod Errors
pub mod Exec
pub mod Dict
pub mod Protocol
pub mod Buffer
pub mod Datatypes
pub mod AsyncMessages
pub mod Requests
pub mod Connection
pub mod AioClient
pub mod Client
pub mod Utils
pub mod Cache
pub mod AioCache
pub mod Memberships
pub mod Caching
pub mod Session
pub mod Stats
pub mod Tests
