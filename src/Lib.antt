-- ===== src/Lib.antt =====
-- The ticket queue platform: an Express server (src/) over PostgreSQL (Prisma), Redis (ioredis) and
-- BullMQ, with socket.io for live positions.
--
-- A user enters the waiting line of a concert, is admitted from its head, one user at a time, reserves
-- tickets of a zone with the admission, and pays within five minutes. A reservation takes its tickets
-- from a stock counter in Redis and sets a lock with a time to live, in one Lua script. The payment
-- webhook confirms it; a cancellation, a failed payment or the delayed job of the reservation gives
-- the tickets back, and the job admits the next user.
--
-- Files and what they model:
-- - Schema: prisma/schema.prisma. Errors: AppError of src/utils/errors.ts, and what the stores throw.
-- - Prelude: Boolean tests, integers, lists, and Action, an async function: state in, a result or an
--   error and the state out.
-- - Services: the stores as interfaces. Services.Redis, Services.Table (Prisma) and Services.JobQueue
--   (BullMQ) are records of commands with their documented behaviour as laws; Services.Memory has
--   instances of all three, which the examples run on.
-- - Platform: the state that handlers share, and how they call the stores. Platform.Rules: what
--   actions keep and establish, for every plan of faults.
-- - Concert.Repository and Concert.Service: src/repositories/concert.repository.ts,
--   src/repositories/concertZone.repository.ts and src/services/concert.service.ts. Zones is about
--   the update of a zone, Stocking about new zones, Removal about deletions, Sale about the cron of
--   src/queues/workers/concertStatus.worker.ts.
-- - Queue.Repository and Queue.Service: src/repositories/queue.repository.ts and
--   src/services/queue.service.ts. The children of Queue are named for what they prove: Line (the
--   sorted set), Counting (the scan loop), Exclusive, Invariant and Reachable (sequences of calls),
--   Entry, Admission, Grace (disconnects), Readers and Untouched (what calls leave alone). Booth is
--   the abstract queue of a concert, Effects what each call writes, Depicts how a store stands for a
--   booth, Refinement one call against the booth, and Runs any run of calls.
-- - Reservation.Repository, Reservation.Service and Reservation.Jobs: the reservation repository
--   (src/repositories/reservation.repository.ts), service (src/services/reservation.service.ts) and
--   worker (src/queues/workers/reservation.worker.ts). Preemption is about the two scripts. Books
--   states the balance of a zone, Balance, Closing and Ending have the changes that keep it, and
--   Opening, Cancellation, Renewal, Settlement and Expiry show it of the handlers, whose effects stand
--   in Creation, Extension and Webhook. Purchase is a purchase from the request to
--   the payment, Reachable has the sequences of calls, Repeated the second
--   delivery of a webhook, Listing the listing of a user's reservations, Faults the calls that fail half-way.
-- - Auth.Repository, Auth.Service and Auth.Middleware: src/repositories/user.repository.ts,
--   src/repositories/refreshToken.repository.ts, src/utils/jwt.ts, src/utils/bcrypt.ts,
--   src/services/auth.service.ts and src/middlewares/auth.middleware.ts, over Services.Accounts, which
--   states what jsonwebtoken, bcrypt and the digest promise. Rotation is about refresh, Emails about
--   emails that are taken, Sessions about
--   a session from registration to logout, Roles about the role of a registration, Guards about
--   requireAdmin and failing calls.
-- - Post.Repository and Post.Service: src/repositories/post.repository.ts and
--   src/services/post.service.ts. Consistent has the invariant of posts and replies, Replies what the
--   handlers do.
-- - Socket.Handlers and Socket.Jobs: src/socket/queue.socket.ts and
--   src/queues/workers/queue.worker.ts. Positions is about the broadcast, Arrival about what it tells a
--   user who enters, Seats and Seating have what
--   handlers and jobs keep, Reachable sequences of events and jobs, Lines what one socket does.
-- - Client.Api and Client.QueueHook: client/src/api/client.ts and client/src/hooks/useQueue.ts, with
--   the events of the browser, the server and the user as data. Requests and Waiting are about the
--   refresh of tokens, Attempts about what the hook tells the server.
-- - Client.Checkout: client/src/pages/ReservationPage.tsx as a state machine; its children are about
--   bounds (Limits) and payments that are tried again (Retries). Client.ConcertModal with Saving and
--   Client.AdminPage with Deleting, Client.ZoneModal: client/src/pages/AdminPage.tsx.
--   Client.Failures: client/src/lib/errors.ts.
-- - Client.Access with Pages: client/src/App.tsx, ProtectedRoute.tsx and AdminRoute.tsx of
--   client/src/components. Client.Navbar: Navbar.tsx, and client/src/context/ThemeContext.tsx.
--   Client.Login with Accounts: client/src/pages/LoginPage.tsx. Client.Cancel with Hidden: the dialog
--   of client/src/pages/ReservationsPage.tsx. Client.Lists: what the pages load. Client.Support with
--   Answering: the dialogs of SupportPage.tsx and AdminSupportPage.tsx. Client.Panel: the panel of
--   QueuePage.tsx.
-- - Http.Response: src/utils/response.ts and src/middlewares/error.middleware.ts. Http.Controllers:
--   src/controllers. Http.Routes: src/routes and the mounts of src/index.ts. Refusals is about the
--   requests that no service sees.
-- - Samples: a platform in memory. The modules named Tests run the operations on it.
--
-- Function names are the source's in snake case; a handler of several stages has its stages as
-- functions of their own (settle, commit and roll_back of createReservation; confirm and decline of
-- handleWebhook), which its equations compose in the order of the source.
--
-- Ids are numbers, since they are only compared; dates are milliseconds; prices and quantities are
-- natural numbers. JavaScript's doubles are not modelled: totals stay far below 2^53. Each awaited call
-- to a store takes one entry of a plan of faults: `true` makes it throw before it takes effect. A
-- handler runs without other handlers in between, and the clock stands still within it. A row that
-- Prisma reads with `include` has the zone where a caller uses it. Stock counters hold numbers.
--
-- Tokens and digests are abstract; a random UUID is the next value of a counter of the world. The term
-- of a refresh token is the digits that parseInt reads at the start of the setting, without sign or
-- blanks, in days of 24 hours. A list that the code orders by name or creation is in the order of the
-- table. Rows are written without the checks of foreign keys, and deletions cascade as the schema says.
--
-- The loop of countAdmitted is a recursion on fuel, as much as the scan of the store at hand has
-- replies, which is enough since SCAN of a store that does not change ends.
--
-- Not modelled: interleavings of handlers, what the schemas of zod demand of a body, and the layout,
-- percentages and formats of the client's pages. A page is a state machine on what its hooks keep; its
-- events are the buttons, the effects and the replies to its calls, and a reply that it does not wait
-- for changes nothing. Number(text) of a form is NaN, an infinity, or m · 2^e. A load of a page by the
-- browser is an event of the client: until it comes, the code of the old page runs on. The model of
-- the queue hook is for one concert and its current socket; empty strings, which JavaScript takes for
-- false, are no tokens and no ids.
pub mod Errors
pub mod Prelude
pub mod Schema
pub mod Services
pub mod Platform
pub mod Concert
pub mod Queue
pub mod Reservation
pub mod Auth
pub mod Post
pub mod Socket
pub mod Client
pub mod Http
mod Samples
