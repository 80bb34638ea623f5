-- ===== src/Lib.antt =====
-- conduit-connector-sdk-python: the connector SDK of src/conduit/connector, its wire adapters, and
-- the client of the engine in src/conduit/client.
--
-- A connector is a source or a destination that Conduit runs as a subprocess and drives over gRPC.
-- The SDK shakes hands with the host (_handshake.py), serves one servicer (serve.py), configures it
-- (Configure), and runs its stream: a source's records are read, batched and sent; a destination's
-- requests are flattened, batched, written and acked. SIGTERM drains the stream before the teardown.
--
-- Files, and the code that each models (paths are from the repository's root):
--   Prelude        shared names: tests, lists, integers, dictionaries, ranges, results; Prelude.Decimal
--                  has Python's str(int), int(str) and str.strip on lists of code points
--   BatchWrite     src/conduit/connector/errors.py: `BatchWriteError`, `__init__` (init) and `partial`
--   Duration       src/conduit/connector/config.py: `format_go_duration`, `parse_go_duration`
--   Constraints    src/conduit/connector/config.py: `_constraint_validations` and its helpers
--   Parameters     src/conduit/connector/config.py: `to_parameters` and its helpers, the parsing of
--                  durations before validation; the batch parameters and `Specify`
--   FieldErrors    src/conduit/connector/errors.py: the errors of a configuration
--   Batch          src/conduit/connector/_batch.py: `BatchConfig`, `extract_batch_config`;
--                  Batch.Collect has the generator `collect_batches`
--   Configure      `Configure` of both servicers, in source.py and destination.py
--   Record         src/conduit/connector/record.py: the data classes and the metadata accessors;
--                  Record.Wire is src/conduit/_grpc/adapters.py
--   Destination    src/conduit/connector/destination.py: `_write_batch`, `_flatten_incoming`, `Run`, `drain`
--   Source         src/conduit/connector/source.py: `Run`, `_consume_acks`, `Stop`, `drain`;
--                  Source.Backoff is `_Backoff`, Source.ReadLoop is `_read_loop`
--   Handshake      src/conduit/connector/_handshake.py, and the checks of `serve`
--   Avro           the values and schemas of src/conduit/connector/schema.py
--   Schema         src/conduit/connector/schema.py: the validation of a value against an Avro schema;
--                  Schema.Codec is `AvroSchema`
--   Build          src/conduit/connector/_build.py: the distributions and files of an artifact, and
--                  `main` of src/conduit/connector/_cli.py; Build.Bootstrap is the artifact's script
--   Introspect     src/conduit/connector/_introspect.py
--   Client         src/conduit/client: Errors is errors.py, Pipeline is pipeline.py, Engine is
--                  client.py, Handle is run.py, Provision is _provision.py, Local and Opening are _local.py
--   Testing        src/conduit/connector/testing: the fixtures, and the resume check
--   Serve          src/conduit/connector/serve.py: the watchdog and the shutdown, its coroutines whole,
--                  and the `Teardown` RPC of the servicers;
--                  Serve.Tasks has them from one suspension to the next, with the lock, and the drain
--                  beside the `Run`s; Serve.Wiring is `serve`, `_serve_async`, `_build_plugin_server`
-- The other files of a folder hold its theorems, and its Tests the runs and instances of them.
--
-- State is a record with the source's attributes, and each operation gives the next one. Concurrency
-- is an explicit schedule: what `asyncio.wait` finds ready (`Wake`), what has come on the request
-- stream and whether the stop event was set by then (`Arrival`), whether the read loop's test finds
-- it set, the events of the shutdown (`Event`), and the turns of its coroutines (`Turn`). The
-- connector's `write`, `read` and `configure` and the pydantic model are parameters, and so is what protobuf
-- makes of a mapping. The asynchronous dispatch of the hooks (`invoke`) is a call; a hook that
-- blocks for ever is a schedule that ends. An artifact's extraction is steps of a process that can
-- be killed between any two (`LaunchEvent`).
--
-- Loops are structural recursion on the schedule, the polls or the text. Three are on fuel: the
-- parser's over the components of a duration, which is given the text's length, enough since each
-- match takes a character (Duration.Fuel); the validation of a value, whose fuel is what the
-- interpreter's recursion limit allows, where three calls for each level of the value and three
-- more are enough (Schema.Fuel); and the resolution of distributions, where one turn for each root
-- and each requirement of an installed distribution is enough (Build.Terminates).
--
-- Numbers: Python's integers are ℤ. A `timedelta` is its number of microseconds with the bounds of
-- the library's type. A retry delay is counted in tenths of a second; the power of two in it
-- overflows at exponent 1024, as a double does.
--
-- Not modelled: the messages of exceptions beyond what the SDK reads of them, a request of the
-- destination that cannot be decoded, a cancelled `Run`, gRPC itself; the moving of a float's
-- bounds, the parsing of the command line, `invoke`, and the tests of the acceptance suite that
-- only call the connector. fastavro, pydantic, the engine, the network and the disk are parameters.
-- Generated code is left out.
pub mod Prelude
pub mod BatchWrite
pub mod Duration
pub mod Constraints
pub mod Batch
pub mod Parameters
pub mod FieldErrors
pub mod Configure
pub mod Record
pub mod Destination
pub mod Source
pub mod Handshake
pub mod Avro
pub mod Schema
pub mod Serve
pub mod Build
pub mod Client
pub mod Introspect
pub mod Testing
