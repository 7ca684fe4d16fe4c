-- ===== src/Lib.antt =====
-- The core logic of TraderJoe, a framework that collects market data: a store (server/data/store)
-- that keeps datasets of bars and judges them, an ingest (server/data/ingest) that calls the
-- vendors, and code that both share (server/common).
--
-- The parts and their files. A file named for a part declares its state and operations, one
-- function per function of the source; the files below it prove what they are named for.
--
-- - Calendar: server/data/store/app/trading_calendar.py. Calendar/Adapter is
--   ExchangeCalendarAdapter, an operation per method; Calendar/Bisect is bisect_left and
--   bisect_right. The exchange_calendars library and zoneinfo are parameters, the records
--   ExchangeCalendar and Zone, with the behaviour relied on in ExchangeLaws and ZoneLaws.
-- - Scheduling: server/common/scheduling.py. Once, AfterTradingEvent and Every, and in
--   Scheduling/Loop the loop of run_periodic, one pass of `_run_loop` at a time. What a pass meets
--   (its clock, the job, the sleep, the wake) is an argument.
-- - Completeness: server/data/store/app/completeness.py: the verdict on a dataset's range, the runs
--   of missing sessions and, in Completeness/Buckets, the coverage buckets. Months is the calendar of
--   months behind date.replace(day=1).
-- - RateBudget: server/data/ingest/app/brokers/rate_budget.py: the token bucket of a vendor.
--   RateBudget/Acquire is the wait for a token, one turn of the loop at a time, with its arithmetic in
--   RateBudget/Rounding; RateBudget/Waits is about the length of the wait.
-- - Market: the granularities and the update types of server/common/enums/data_stock.py.
-- - Health: server/data/store/app/health.py, the status of a dataset, over Calendar and Completeness.
-- - Usage: server/data/store/app/client_label.py and server/data/store/app/usage_recorder.py: the
--   label of a read, the buffer of reads with its flush, and the cap on labels. How a write to the
--   database goes, and what is recorded meanwhile, are arguments.
-- - Reaper: server/data/store/app/reaper.py and its deletion in
--   server/data/store/app/database/crud/stock/store_dataset_entry.py. What others commit before each
--   dataset's transaction, and whether it fails, are arguments.
-- - Refresh: server/data/store/app/daily_refresh.py, one pass of the refresh of DAILY datasets, over
--   Health: the plan in Refresh, and the requests in Refresh/Requests. What the database answers and what each request comes to are arguments.
-- - SingleFlight: server/data/ingest/app/brokers/single_flight.py, as steps: a call up to its await,
--   and the end of an execution.
-- - Entries: the datasets of server/data/store/app/database/crud/stock/store_dataset_entry.py with
--   server/data/store/app/database/crud/dataset_override.py and the column of
--   server/common/database/sql_alchemy_nullable_datetime.py. Entries holds the tables and the rules on
--   ranges, Entries/Writes the writes of an owner, a fetch and the refresh, Entries/Operator those of the
--   operator. A transaction is a function of the tables; where it runs several
--   statements that no lock holds together, what others commit in between is an argument. Symbols, sources and other strings of a
--   row are codes.
-- - Errors: server/common/errors/vocabulary.py with its two renderings. Errors holds the table,
--   Errors/Build the construction of an error. Errors/Rpc and Errors/Received are the two sides of
--   server/common/rpc/errors.py, and Errors/Http is server/routers/common/errors.py. The grpc library
--   is a parameter, what it delivers of a reply; isoformat and fromisoformat are a parameter with their
--   round trip, and so is the conversion of a Duration; a datetime's offset can put it out of what UTC can
--   show, and astimezone then fails; a string that no code reads is a number.
-- - Events: server/data/store/app/events.py, the hub and its clients' queues. asyncio.Queue is the
--   list of what it holds; a get on an empty queue, which waits, is a step that changes nothing.
-- - Catalog: the pages of server/data/store/app/dataset_catalog.py: keys and cursors in Catalog, the
--   filters of a query and list_page in Catalog/Listing. Catalog/Walk follows the cursors. A
--   cursor is what it decodes to, so base64 and JSON are not modelled; the rows, the reads, the running
--   ingests and the status of each row are what the database and the judgement of freshness answer, an
--   argument. What a page carries beside its rows is left out.
-- The schedules and the completeness rules ask a calendar through the records SessionCalendar and
-- TradingCalendar, the source's protocols, which the adapter fills.
--
-- Units. An instant is a number of microseconds since 0001-01-01 UTC, an aware datetime; a naive one
-- is the other constructor of DateTime. A date is its ordinal. A token of the budget is 10^9 units and
-- its rate is in units per microsecond; floats are exact numbers here, and a timedelta made of one is
-- rounded half to even, as timedelta does.
--
-- Bounds. The walk over sessions has the source's bound of eight rounds, since a calendar's next two
-- sessions are enough. No loop has fuel that the source lacks: the loops recurse on lists or on counts,
-- and the endless ones read one turn at a time from a list. Catalog/Walk follows as many cursors as a
-- query has rows, which is enough. The month of a day is searched down from
-- an estimate that is never too early.
--
-- Not modelled: the far end of the datetime range, beyond which Python raises OverflowError, except for
-- the delay of an error; logging, except for the line of an error;
-- the cancellation of tasks, except of a flush and of a shared call; SQL, gRPC and HTTP, and the code that is only their glue.
pub mod Base
pub mod Market
pub mod Months
pub mod Calendar
pub mod Scheduling
pub mod Completeness
pub mod Health
pub mod RateBudget
pub mod Usage
pub mod Reaper
pub mod Refresh
pub mod SingleFlight
pub mod Entries
pub mod Errors
pub mod Events
pub mod Catalog
