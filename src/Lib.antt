-- ===== src/Lib.antt =====
-- A model of batyr, a server that synchronizes tables of a PostGIS database with data sources that
-- GDAL/OGR reads, with proofs about it.
--
-- A request over HTTP creates a job. The job storage keeps it in a map by its id and in a queue; a
-- worker takes it from the queue, pulls the features of the layer into a temporary table and changes
-- the target table in one transaction, or removes features by their attributes. Done jobs stay in the
-- map until the cleanup removes them, and the HTTP handlers show them as JSON.
--
-- Which file models which part (paths from the root of the repository):
--   Prelude: bytes, texts (lists of bytes), numbers and lists.
--   Strings: src/common/stringutils.cpp. Differences in trim wrap around at 2 ^ 64; the fuel of
--     replaceAll is the length of the text and one more, which suffices for a single byte to replace.
--   Numbers: std::stoi and std::atoi.
--   Queue: src/server/quitablequeue.h. The operations are the parts that run under the mutex;
--     System, step and run are the threads that call them, as an explicit sequence of actions; push
--     unlocks the mutex in one action and calls notify_one in a later one.
--   Json: the JSON values of rapidjson, and src/server/json.cpp. The fuel of to_string is the number
--     and one more, which is more than its digits.
--   Job: src/server/job.h, src/server/job.cpp and src/common/nullablevalue.h, with fromString in
--     Job/Request and toJsonValue in Job/Document.
--   Storage: src/server/jobstorage.cpp. Jobs are shared by their address in a heap, so that the map,
--     the queue and a worker see the same job. JobStorage::push is addJob and then the push to the
--     queue; Service takes the two as one action.
--   Db: src/server/db/transaction.cpp in Db/Transaction and Db/Quoting, a monad of state and
--     exceptions over the parameter Postgres, which stands for libpq and the database; the queries for
--     fields and of src/server/db/postgis.cpp in Db/Fields. Db/Connection is
--     src/server/db/connection.cpp, with the rest of libpq as the parameter Link.
--   Maps: std::map with keys that are strings, as the list of its entries in their order.
--   Ini: src/common/iniparser.cpp. The levels stand at addresses of a store, so that a pointer to a
--     parent is an address or none.
--   Config: the data of src/server/configuration.h, and getLayer; Config/Settings, Config/Layers and
--     Config/Parse are Configuration::parse.
--   Worker: src/server/worker.cpp. The parts of Worker::pull are Worker/Source (filter and layer),
--     Worker/Columns (columns and primary key), Worker/Convert (values), Worker/Features (the loop
--     over the features), Worker/Statements (the SQL) and Worker/Pull (their composition);
--     Worker/Removal is removeByAttributes, and Worker/Loop what Worker::run does with a job that it
--     has set in process. GDAL/OGR is given by the values that its functions return.
--   Service: the threads of src/server/worker.cpp, with the handlers and the cleanup beside them, as
--     actions on the shared heap and storage that come in any order. A handler that submits a job writes
--     its response after the push, with the job as it is then; a worker sets the status at the end of
--     a job in one action and the rest in the next. A worker stands in a phase of
--     Worker::run; what the database, the sources and the clock answer at an action is its World.
--     The schedules of Service/Drain and Service/Stop are as long as actions_left allows, which every
--     action of a worker with a connection lowers.
--   Http: src/server/http. Http is the routing of httprequesthandlerfactory.cpp, Http/Handlers are the
--     handlers of the API.
--   Server: src/server/server.cpp, from the options of the command line to the exit code.
--   Tests: tests of definitions, and the properties at concrete inputs.
--
-- Coarser than the code: between addJob and the push to the queue another thread can only find the job
-- queued in the map, and not get it; Service joins the two. All commands to the database for a job are
-- one action of its worker, as no other thread sees them. The counts that Worker::pull sets in the
-- middle of a job come with those of its end. A worker in popWait acts in Service whenever
-- an item waits: that it does not sleep through a notification is a matter of Queue. An exception that
-- leaves a worker ends the whole program; the workers of Service may go on after it, which is more than
-- the program does.
--
-- Not modelled: the closing of an idle worker's connection, the link from a worker's phase to its
-- Connection (the result of reconnect is a part of the World), the listeners of the broker, logging,
-- the headers of responses, the printer and the parser of rapidjson (the parser is a parameter), and
-- the web interface.
--
-- Conventions: counts are natural numbers, also where the code has int, so that an overflow of a
-- counter is not modelled; a time is its seconds since the epoch. A function that throws returns an
-- outcome, a result type or an Option. The order in which the operands of << are computed is the order
-- in which they stand.
pub mod Prelude
pub mod Strings
pub mod Numbers
pub mod Queue
pub mod Json
pub mod Job
pub mod Storage
pub mod Db
pub mod Config
pub mod Worker
pub mod Http
pub mod Maps
pub mod Ini
pub mod Service
pub mod Server
pub mod Tests
