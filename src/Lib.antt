-- ===== src/Lib.antt =====
-- Verification library of the event portal's backend (backend/, Go): guest checkout, payment and
-- ticket issue, at the level of their SQL statements.
--
-- The program's parts. A checkout (backend/internal/order/service.go) reserves seats and writes
-- the order in one transaction, opens a payment session with the provider outside any transaction,
-- and stamps the session onto the order in a second one; a provider that fails is compensated.
-- Events and ticket types are written by the admin (backend/internal/event). The provider's
-- notifications, a guest's status refresh and the expiry sweep
-- (backend/internal/payment/service.go) move a PENDING order on through one guarded transition,
-- give back the seats of an order that ends unpaid, and start the ticket issue of a paid one
-- (backend/internal/ticket/service.go). The quota itself belongs to backend/internal/event.
-- backend/cmd/api/adapters.go fits the domains to one another.
--
-- The files. Store holds the tables of backend/migrations as lists of rows. Effect is the language
-- of the models: a call takes the state of a request, the tables and a counter of calls, and
-- returns a result or an error with the state it leaves. Effect/Laws and Effect/Keeps reason about
-- calls. Errors models backend/pkg/apperr and the sentinel errors, Randcode backend/pkg/randcode.
-- Each domain X has X/Sql (the statements of backend/internal/x/xsql), X/Repository
-- (backend/internal/x/repository.go) and X/Service (backend/internal/x/service.go), where
-- Order/Checkout is backend/internal/order/service.go, Order/Request is
-- backend/internal/order/dto.go, Order/Number is backend/internal/order/order_number.go,
-- Order/Provider is backend/internal/order/event_provider.go, Payment/Status is
-- backend/internal/payment/status.go, Payment/Gateway is backend/internal/payment/gateway.go and
-- dto.go, Payment/Repository has the statement of backend/internal/payment/paymentsql too, and
-- Ticket/Code is backend/internal/ticket/normalize.go. Event/Admin is the admin's half of
-- backend/internal/event (admin_service.go, admin_repository.go, and in Request and Slug
-- admin_dto.go), Event/Catalog the guests' half; Order/Public is
-- backend/internal/order/public_service.go, Order/Admin and Order/Lookup are
-- backend/internal/order/admin_service.go, Payment/Midtrans is
-- backend/internal/payment/midtrans.go, and Notification/Service is
-- backend/internal/notification/service.go with the resend of handler.go. Go's names stay, in
-- lower case: reserveOnce is reserve_once, the loop in it reserve_items. Admin is
-- backend/internal/admin: Sql its repository, Token jwt.go, Service service.go and middleware.go.
-- Adapters is backend/cmd/api/adapters.go.
--
-- The proofs. Seats says what it is for the seats of a ticket type to be in order: none on sale
-- below zero, every item with its order, and the seats on sale and those held by PENDING and PAID
-- orders making up a fixed number. Event/Seats, Order/Seats and Order/Writes prove it of the
-- statements; Order/Contract and Payment/Contract are the interfaces through which
-- Order/Reserving, Order/Conservation, Payment/Transition and Payment/Conservation prove it of
-- whole requests; Adapters/Laws fills the interfaces, and Conservation puts the parts together.
-- Order/Evolution says what may become of an order in its life; Order/Lifecycle, Order/Progress
-- and Payment/Progress prove it of statements and requests with the rules of Effect/Keeps, and
-- Lifecycle puts them together. Order/Totals, with the sums of Order/LineSums and the rows of
-- Order/Amounts, Order/Request/Laws, Order/Expiry, Payment/Settled, Payment/Once,
-- Payment/Status/Laws, Event/Quota, Ticket/Door, Ticket/Issue and the other files in Laws prove
-- the remaining results. Effect/Outcome has rules for what a call does on every way it can end, by
-- which Event/Admin/Delete, EventWrites, TicketTypeWrites and Sold, Notification/Delivery,
-- Order/Public/Laws and Order/Admin/Laws account for all errors of a service; Event/Admin/Restrict
-- relates the delete guards to the foreign keys, Event/Admin/Seats carries an update of a quota to
-- the seats, and Event/Catalog/Hidden compares a call on the tables with one on the published
-- events only. Notification/Neutral puts the notification service in the place of the parameter of
-- Conservation and Lifecycle that sends the ticket email. Admin/Login says who can log in, and
-- Admin/Guard that a token opens the routes. Scenarios runs the theorems on a small shop.
--
-- What a model leaves open. The environment (Effect.Env) decides which database calls fail, which
-- commits took place although their answer was lost, what the clock and crypto/rand give, the ids
-- of new rows, and what other requests do to the tables while one waits for the provider. A
-- transaction runs without others in between, so that the row locks and the snapshots of
-- PostgreSQL are not modelled. The HTTP exchange with the provider, the JSON decoder, SHA-512 and
-- time.Parse are the fields of Payment/Midtrans.Api, the mail server and the PDF those of
-- Notification/Service.Mailer. bcrypt, the JWT library and the texts of ids are parameters of
-- Admin/Service and fields of Admin/Token.Jwt. The collation of the database, mail.ParseAddress
-- and Unicode beyond ASCII are parameters.
--
-- Bounds and fuel. The texts of events and names of ticket types are refused outside their VARCHAR
-- columns; the lengths of the other texts are not modelled. Quotas are refused outside an INT
-- column and below zero, as the database does; the counters of request validation wrap around as
-- int32. Amounts are exact hundredths. Loops are structural recursion on the rows, the lines or
-- the attempts left; no model runs out of fuel. Times are nanoseconds from the year 1.
--
-- Not modelled: the HTML body of the email, PDF and SMTP, HTTP handlers and rate limits,
-- configuration, logs and metrics. The goroutine that fulfils a paid order runs where it is
-- started, without its deadline.
pub mod Base
pub mod Errors
pub mod Store
pub mod Effect
pub mod Seats
pub mod Randcode
pub mod Event
pub mod Order
pub mod Payment
pub mod Ticket
pub mod Adapters
pub mod Conservation
pub mod Lifecycle
pub mod Scenarios
pub mod Notification
pub mod Admin
