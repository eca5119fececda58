-- ===== src/Lib.antt =====
-- slimwhats is a gateway to WhatsApp: operators manage instances (paired devices) in a web manager,
-- clients send messages with an instance's API key, and the events of an instance go to its webhook.
-- This library models the logic of the Go code, and proves what is listed below.
--
-- The parts, and the files of the repository that they model:
--   Send.RateLimit     internal/send/ratelimit.go: `Check` is `check`, on the buckets by JID
--   Send.Recipient     internal/send/recipient.go: `Resolve`, `CreateJID` and the country rules
--   Send.Buttons       internal/send/buttons.go: `validateButtons`, and in Build `buildButtonsMessage`
--   Send.Compose       internal/send/buttons.go: `SendButtons`, with what it does to the client as a list
--   Send.Text          internal/send/text.go: `SendText`, with what it does to the client as a list
--   Auth.LoginLimit    internal/auth/ratelimit.go: failures and lockouts by address
--   Auth.Session       internal/auth/session.go: the table admin_sessions as a list of rows
--   Auth.Middleware    internal/auth/middleware.go: `SessionMiddleware`, over gin as an interface
--   Instance.Store     internal/instance/model.go and SetWebhook, LoadWebhookSecret of qr.go: the table
--                      instances as a list of rows
--   Instance.Lookup    internal/instance/manager.go: `GetByAPIKey` and the scan of its rows
--   Instance.Manager   internal/instance/manager.go: the clients in memory, with `Start`, `Disconnect`,
--                      `LogoutAndReset`, `Reconnect`, `Get`, `SubscribeEvents`, `AddEventHandler` and the
--                      others; Race has `Start` as its two locked parts, which interleave
--   Instance.Qr        internal/instance/qr.go: `QRState` and `GetLatestQR`
--   Instance.Logs      internal/instance/logs.go: the table of the logs as a list of entries
--   Webhook.Json, Webhook.Events, Webhook.Normalize
--                      internal/webhook/events.go: `Normalize`, and the content of a message with its
--                      quotations, as a JSON object
--   Webhook.Dispatcher internal/webhook/dispatcher.go: the knobs and the rows of webhook_deliveries;
--                      Retry is `deliver` with its attempts, Queue the channel, the workers and the
--                      semaphores as a system of steps
--   Service.Callback, Service.Log
--                      cmd/slimwhats/main.go: the callback of the events of all clients, `logEntry`, and
--                      `RecordDelivery` of the dispatcher
--   Handlers.Login     internal/handlers/admin_auth.go: `LoginHandler`, as a request that overlaps no
--                      other, and `LogoutHandler`; Overlap has requests that overlap
--   Handlers.Decimal   internal/handlers/admin_auth.go: `formatSeconds` and `itoa`
--   Handlers.ApiKey    internal/handlers/api_key.go: the handlers that set, rotate and reveal a key
--   Handlers.KeyForm   internal/handlers/api_key.go: the form that rotates a key and deletes, with
--                      `splitPath`
--   Handlers.Instances internal/handlers/admin_instances.go: the handlers that create, list and show
--   Handlers.Lifecycle internal/handlers/lifecycle.go: connect, disconnect, reconnect and delete, as JSON
--                      and as the form
--   Handlers.Settings  internal/handlers/instance_actions.go: the webhook, as JSON and as the form
--   Handlers.Access    internal/handlers/instance_actions.go: the middleware of the API keys, ping, status
--                      and the QR code
--   Handlers.Outbound  internal/handlers/send.go: the two send handlers with their limit
--   Handlers.Audit     internal/handlers/audit.go and audit_bus.go: the logger, and the bus of channels
--   Handlers.NewInstance
--                      internal/handlers/admin_ui.go: `AdminNewSubmit`
--   Handlers.Listings  internal/handlers/instance_logs.go and webhook_log.go: the lists of entries and
--                      deliveries
--   Handlers.Sse       internal/handlers/events.go: `emitEvent` and `formatSSE`
--   Handlers.Messages  internal/handlers/errors.go: the codes and their texts
--   Config             internal/config/config.go: `Load`
--   Base               texts, lists, dictionaries, times, results; Tests holds runs on small inputs.
--
-- How they meet: the login handler calls the limiter of Auth.LoginLimit and creates a session of
-- Auth.Session, which the middleware validates. The lifecycle handlers call the manager of clients, whose
-- state holds the table of Instance.Store; the clients of whatsmeow call the callback of
-- Service.Callback, which changes the manager, its table and the logs, normalises the event, records
-- a delivery, loads the webhook from the table and offers a job to the queue, whose workers run the
-- retry loop. The QR handler reads the code that the callback has set. The middleware of the API
-- keys gives the send handlers their client; they ask the limiter of Send.RateLimit, and a message
-- goes to the JID that Send.Recipient resolves.
--
-- State is passed explicitly, and a mutex makes each guarded call one step;
-- `login` takes a whole request to be one. Times are nanoseconds
-- and an argument of each call, as are random bytes, the answers of the network and the statements of
-- the database that fail. A Go string is a list of bytes, a map an association list, an error a
-- value of a result type, and a panic a result of its own. gin, whatsmeow, net/http, the decoders and
-- the JSON encoder are parameters, with the laws that the code relies on. The calls of a client are
-- recorded in a list, in their order.
--
-- The retry loop runs on fuel, one unit for each of the MaxAttempts attempts, and the loops of
-- SendText and SendButtons on three units: they return at their last attempt, before the fuel is
-- out. All other loops are structural.
--
-- Not modelled: the HTML pages and the queries for them, with what a form shows again; the
-- connection of an event stream, with its watchdog and ticker; the wiring, the router and the
-- shutdown in cmd/slimwhats/main.go; opening the database, whose library runs the migrations; the
-- float arithmetic of the backoff, of which only the number of sleeps is kept; the sleeps between
-- the attempts of SendText and SendButtons; the random IDs and their
-- hashes; the cascades of a deleted instance; the text of most error messages, which are constructors.
pub mod Base
pub mod Send
pub mod Config
pub mod Service
pub mod Auth
pub mod Instance
pub mod Webhook
pub mod Handlers
pub mod Tests
