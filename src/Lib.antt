-- ===== src/Lib.antt =====
-- The core of dashfetchr, an aggregator of last-mile carriers: parcels wait in a locker, a customer books
-- a slot, a carrier is chosen, and every step of the delivery leaves evidence in a hash-chained ledger.
--
-- Base: what the modules share: tests on numbers, lists, Go's int64, float64, time.Time, UUIDs and maps.
--   A float64 is an exact multiple of 2^-1074, an infinity or NaN, and the two zeros are one value; Arith
--   rounds the exact result of an operation to the nearest float64, ties to even. Text is what the code
--   uses of the package strings.
-- Core.Delivery: internal/core/delivery. Delivery is the aggregate, States its table of transitions; a
--   method on *Delivery is a function from a delivery to a delivery and an error. Lifecycle and Histories
--   are about any sequence of calls.
-- Core.Awb: internal/core/awb: the parcel (AWB), its tracking numbers, and Internal, its identifier.
-- Core.Custody: internal/core/custody. Event and Validate; Hashing is computeHash over any marshaller and
--   digest; Ledger is Record, List and Verify over any repository; Chain, Recording and Tampering are
--   about them.
-- Core.Pricing: internal/core/pricing: the quote of a booking; Fares is about its amounts. Core.Retailer:
--   internal/core/retailer.
-- Ports: internal/ports: the types that carriers and services exchange. A carrier is a record of
--   functions: what it answers is a parameter of every theorem.
-- Routing: internal/core/routing: eligibility, the strategies by price, by ETA and by weighted score, the
--   decision.
-- Registry: internal/carrier: adapters by identifier and version. Methods hold a mutex, so each is a step.
--   Wire is the registry that the binaries start with.
-- Infra.Memory: internal/infra/memory: the stores. A map is an association list; the order in which
--   `range` visits a map is an argument, of which a theorem assumes that it visits the entries.
--   It also holds the retailers and the routing log. CustodyRepo.Races is about two calls of the ledger's Record
--   at once.
-- Infra.Postgres: internal/infra/postgres: the stores over tables, which are lists of rows. What a column
--   keeps of a value, the order of rows, and what the database refuses are a Database of each store.
-- Infra.Http: internal/infra/http. Message is a request and a response, Middleware the checks of keys and
--   tokens, Handlers the four handlers, Server the routes. Access, Ownership and Journeys are about them.
-- Infra.Events: internal/infra/events: the bus, over handlers that act on a state.
-- Auth: internal/auth: the hash of a key, and what a context carries.
-- Config: internal/config: the configuration that Load reads from an environment.
-- Adapters.Bolt: internal/adapters/carriers/bolt: the declared capabilities; Types and Mapper are Bolt's
--   vocabulary and the way to and from it, Client the requests and their errors, Webhook the signature,
--   Adapter the carrier. Signed and Failures are about them.
-- App: internal/app: Custodyapp, Webhook, Dispatch and Booking over one Store of the three stores. The
--   clock, uuid.New and the random source are arguments. Journeys is the step relation of the services:
--   any calls in any order, one after another, from empty stores. Evidence, Chains and Shortfalls are about it;
--   Fulfilment is about the custody events that follow a booking, planned by the states they lead to.
--   Wiring is New of app.go over the in-memory stores, with Bolt's adapter; Started is about that API.
--   Redact hides a URL's password. Dispatcher: cmd/dispatcher, its loop.
-- Examples: the definitions on concrete data.
--
-- The services call the core and the ports: Booking makes an Awb and a Delivery; Dispatch asks the routing
-- engine, which lists the registry, and the carrier; Webhook turns a carrier's events into calls of
-- Custodyapp, which records in the ledger and moves the delivery. The handlers of Infra.Http call the
-- services, behind the middleware, and App.Wiring puts all of them together.
--
-- Loops are recursion on the list they walk. The printing of a year has fuel for 12 digits, and a year of
-- the clock has at most 12; the halvings of an int64 are at most 11, since 64 - 53 = 11.
--
-- The digits of a float64's magnitude are counted by bisection: 14 steps count at most 2^14 digits,
-- and every magnitude that the operations round has fewer than 8400.
--
-- Parameters stand for code outside of the repository: HMAC and SHA-256, encoding/json, the network behind
-- net/http, the parsing of times, durations and UUIDs, sine, cosine, square root and arctangent, and what
-- PostgreSQL and pgx keep of a value.
--
-- A call of a service, and a request, is one step, which ends before the next begins; only the two steps of
-- the ledger's Record, the reading of the tail and the append, are also taken apart (prepare and commit).
--
-- Not modelled: calls of the services that run at once, but for those two steps of Record; request
-- identifiers, request logging, timeouts and contexts; the pool and the table of routing decisions of
-- PostgreSQL, and New over PostgreSQL; the start-up and shutdown of the binaries. The services run on the
-- in-memory stores: a failing database is the error of a repository in Core.Custody.Ledger, or of a table in
-- Infra.Postgres. App.Dispatch leaves the routing log and the event bus out; Logged is the same service with
-- both.
pub mod Base
pub mod Core
pub mod Ports
pub mod Routing
pub mod Registry
pub mod Infra
pub mod App
pub mod Auth
pub mod Config
pub mod Dispatcher
pub mod Adapters
pub mod Examples
