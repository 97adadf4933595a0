-- ===== src/Lib.antt =====
-- A verification library of the billing microservices: booking seats on parts of a trip, paying for
-- them, and the saga that does both; users and their tokens; routes, buses and trips; the gateway.
--
-- The parts, with the files of the repository and the modules that model them:
--   * booking-service/src -- Booking. Model: the row and its statuses. Segments: domain/
--     segmentAvailability.ts, `hasSegmentConflict`. Repository and Lock: the calls of Prisma and of
--     Redis. Service: `checkAvailability`, `createHold` (in Redis's lock of the seat),
--     `confirmBooking`, `releaseBooking`. Controller and Routes: the handlers and their paths.
--     Proofs: Overlap (the conflict test), Availability, Exclusive (the invariant of the table: no
--     two rows that hold a seat overlap), Safety, Hold, Confirm, Kept (what every row keeps), Forwards
--     and Deadline.
--     Concurrent: the same operations as steps of many requests at once, with the clock and the
--     expiry of locks between any two; Inv, Locks, Steps, Safety and Free: the invariant of the
--     steps; Runs: the operations are runs of the steps; Races: what two orders of steps lead to.
--     SeatMap: the abstract view, which seat is taken on which leg of which trip; Rows, Refine and
--     Granted: the operations as operations on it.
--   * payment-service/src -- Payment. Model, Repository, Service (`charge`, `refund`, `getPayment`),
--     Controller (the three handlers), Routes. Proofs: Laws, Refund, Unique, Kept, Answer.
--     Concurrent: charges and refunds as steps of many requests at once; Rows, Safety and Runs: what
--     no order of them changes, and the operations as runs.
--   * booking-orchestrator/src -- Orchestrator. Clients: the interfaces of the two HTTP clients and of
--     the event publisher. Service: `confirmBooking` (the saga with its compensation) and
--     `cancelBooking`. Controller and Routes: the handlers and their paths. Trace: services that
--     answer anything at all, with the log of the calls. Proofs over these: Saga (every way in which
--     a run ends), Compensation, Cancel; over any clients: Success, Keeps. Wired: the clients joined
--     to the handlers of the two services, where a request or its answer may be lost; Urls: the
--     clients' paths. Publisher: config/kafka.ts. Program: the two sagas once more, as programs that
--     stop at each call; Program/Runs: they do what the sagas do; Program/Bounds: how many calls they
--     make. Concurrent: many sagas at once, one call after another in any order, with calls that come
--     late; Careful, Entitled, Safety and Sound: what no order of them does; Concurrent/Runs: the
--     sagas as runs.
--     Down to the rows of both databases: Answers, Calls and Delivery (single calls), Sale, Declined
--     and Undone, Whole, Paid, Owner, Lost, Served, Day and Progress (whole sagas).
--   * user-service/src -- User. Settings: config/dotenv.ts and config/jwt.ts; Model, Service,
--     Controller, Routes; proofs: Laws.
--   * route-service/src -- Route. Service (with the repository), Controller, Routes; proofs: Laws.
--   * trip-service/src -- Trip. Model, Bus, Service (with the repositories), Controller, Routes;
--     proofs: Layout (buses), Schedule (trips).
--   * api-gateway/src -- Gateway. Settings: config/dotenv.ts; Auth: the middleware; Routes: which
--     service a request reaches; Reach: which handler of it; Sagas: a request for a saga down to the
--     orchestrator; proofs: Laws, Reach, Login (from the user service to the gateway), Identity.
--   * utils/src -- Utils. Errors, Response, StatusCode, Jwt, Duration; proofs: Jwt/Laws,
--     Duration/Reading.
-- The gateway sends a request on to a service; the orchestrator calls the booking service and the
-- payment service through the interface of Orchestrator.Clients, which Wired fills with them.
--
-- How the code is read. An `async` function is a function from the state to a result and the next
-- state (Effect), where a result is a value or the error thrown; so `await` is sequencing, and one
-- call is one step of its own store. A clock's reading, a random draw and an identifier that the
-- environment chooses are arguments. Prisma, Redis, jsonwebtoken, bcrypt, axios and the producer of
-- kafkajs are parameters: records of their operations with the documented behaviour that the code
-- relies on (Platform.Table, Platform.Redis, Utils.Jwt.JsonWebToken, User.Model.Bcrypt,
-- Orchestrator.Wired.Axios, Orchestrator.Publisher.Producer); any call of them may throw, and a
-- write to a table that throws may have been committed all the same. What the routers of Express do
-- with a path is in Platform.Express, and what a path is read as that has an id written into it in
-- Platform.Url.
-- Platform.Memory has a table and a lock store in memory that meet those records, and the
-- modules Examples, the other modules of runs (Orchestrator/Runs, Refusals and ProgressRuns,
-- Gateway/Runs and LoginRuns) and Orchestrator/Sample run the code on them. A number of JavaScript is NaN or an integer (Prelude.Js,
-- Prelude.ParseInt).
--
-- Bounds and fuel. Loops are recursion on a list or a text, so nothing runs out; the only fuel is
-- that of printing a number, one step for each unit of the number and one more, which is above its
-- count of digits. Integers are unbounded: the sequence numbers and millisecond times of the code are
-- far below 2 ^ 53.
--
-- Not modelled: the start and the stop of the processes, their containers, the settings of the other
-- services, logging, the pass-through classes over Prisma's delegates, and the generated Prisma
-- clients. Several requests at once to one service are modelled for the booking service, the payment
-- service and the orchestrator only, and the orchestrator's interleavings take each handler of the
-- two services as one step. Ids of the booking service's table are texts in the spelling in which
-- PostgreSQL gives out a UUID (Platform.Uuid); callers that spell them otherwise are not modelled.
-- Between the orchestrator and the two services, ids are such that stand for themselves in a path:
-- others are modelled as far as the choice of the handler only (Gateway.Routes, Orchestrator.Urls),
-- and escapes with a percent sign not at all. JavaScript's `parseFloat`, its `Number` of a text and the reading of a
-- date are arguments.
pub mod Prelude
pub mod Effect
pub mod Utils
pub mod Platform
pub mod Booking
pub mod Payment
pub mod Orchestrator
pub mod User
pub mod Gateway
pub mod Route
pub mod Trip
