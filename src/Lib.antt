-- ===== src/Lib.antt =====
-- The verification library of the QR intercom: the firmware emulator of the door device
-- (firmware/emulator) and the server (backend/internal), both in Go.
--
-- The program's parts. A visitor's QR code starts a call; a resident accepts it, or opens a point
-- for which there is a standing grant; the server then publishes an open_relay command over MQTT,
-- which the device executes on its relay. The device reports heartbeats, acknowledgements and
-- fail-open events. Residents sign in with one-time codes, and keep a session with refresh tokens
-- that are rotated.
--
-- Which file models which part.
-- - Base and its children: the shared names; tests and lists over native numbers; lists of rows
--   (Base/Rows); Go's 64-bit multiplication and negation (Base/Int); time as nanoseconds from
--   Go's zero time, with Sub cut to int64 (Base/Time).
-- - Firmware/Relay: RelayFSM of firmware/emulator/relay.go. Each method is a function of that
--   name that returns the new record; `Call` and `run` are histories of method calls. Its
--   children prove that the lazy latch is unobservable (Laziness), and when fail-open begins and
--   ends (FailOpen).
-- - Firmware/Idempotency: IdempotencyBuffer.Seen of firmware/emulator/idempotency.go; its
--   children prove how long an id is kept (Retention), and what the buffer holds between calls
--   (Validity).
-- - Firmware/Device: newDevice, handleConnect, handleConnectionLost and pollState of
--   firmware/emulator/main.go, IsStale and handleCommand of commands.go, the event buffer of
--   failopen.go and publishHeartbeat of heartbeat.go. A handler returns the new device and the
--   messages that it publishes. `Input` and `run` are histories of a device. Staleness, Commands,
--   Events and Boot are what is proved of them.
-- - Backend/Httpx: the error codes of backend/internal/platform/httpx/errors.go and their
--   statuses.
-- - Backend/Auth/Claims: the claims of a token and the tests on them (jwt.go, rbac.go, context.go
--   of backend/internal/auth).
-- - Backend/Auth/Otp: OtpService.Send and Verify of backend/internal/auth/otp.go over the
--   interface OtpStore, which is a record of operations (Otp/Store); Lockout and Once are what is
--   proved.
-- - Backend/Auth/Refresh: RefreshWhitelist of backend/internal/auth/refresh_store.go over the
--   interface refreshKV (Refresh/Store), one call after another (Sequential) and with the calls
--   of two requests mixed (Race).
-- - Backend/Auth/Accounts: the queries of repo.go of backend/internal/auth, and the profiles of
--   service.go. Backend/Auth/Tokens: signPair of service.go, VerifyAccess of jwt.go and the gates
--   of middleware.go.
-- - Backend/Auth/Service: the operations of service.go of backend/internal/auth. An operation
--   returns its result, the whitelist's store and the events. Session, Spent and Admin are what
--   is proved; Auth/Stores is RedisRefreshKV of redis_store.go.
-- - Backend/Database: the tables of backend/migrations that the modelled queries read and write;
--   a table is a list of rows.
-- - Backend/Audit: the events and the table of backend/internal/audit/recorder.go; Scope is what
--   a reader sees.
-- - Backend/Access: Open, OpenPoint, OpenResolved and ListPoints of
--   backend/internal/access/service.go. The services around it are a record of answers (`Env`),
--   and what it does is a list of effects. Gates, Granted and Listing are what is proved.
-- - Backend/Redis: the commands of Redis that the server uses, and laws for a database that
--   answers them.
-- - Backend/Devices: presence.go, commands.go and status_consumer.go of backend/internal/devices
--   over Redis; Devices/Correlation is what is proved.
-- - Backend/Calls: Initiate, Accept, Cancel and End of backend/internal/calls/service.go, over
--   the sessions of session.go (Calls/Sessions). Calls/Life is about one apartment's calls;
--   Calls/History and its children follow Redis over all histories of requests and expiries;
--   Calls/Door joins the sessions to access as backend/cmd/server/main.go does.
-- - Backend/Qr: qr.go and handler.go of backend/internal/qr; Qr/Signature is what is proved.
-- - Backend/Guests: the window of guest.go and the data of backend/internal/guests;
--   Guests/Service has the operations of service.go; Window, Create and Door are what is proved.
--   Guests/Offers and Guests/Repo are repo.go with its SQL; Repo/Derived and Repo/Revocation are
--   what is proved of it, the latter together with the service and with access.
-- - Backend/Onboarding: NormalizePhone and CanInviteToApartment of backend/internal/onboarding
--   (phone.go, ownership.go), and NormalizeGrantPublicIDs of composite.go (Onboarding/Composite);
--   Phone and Composite have what is proved. Onboarding/Invitations is CreateInvite of repo.go
--   and ValidateInvite of invite.go, Onboarding/Recipients finds or makes the user of an
--   acceptance, and Onboarding/Invites is AcceptInviteTx of repo.go, one step of the transaction
--   per function; its children prove where an acceptance finds or makes its user (Place, Holder,
--   Session), what it gives (Attach, Attachment, Accept), and that it happens once (Once).
--   Onboarding/Grants is the grants of matrix.go and repo.go; Opening, Toggle, Giving and
--   Invariant join them to OpenPoint of access. Onboarding/Service is service.go; Points and
--   Scope say what an invitation offers, and Trip follows one from its making to its acceptance.
-- - Backend/Schedules: the window of backend/internal/schedules/schedule.go; Schedules/Reconciler
--   has scheduler.go and service.go; Clock, Window, Count and Tick are what is proved.
--
-- Parameters. What is not the program's own code is an argument: parsing of JSON and of RFC 3339,
-- formatting of times, random bytes and identifiers, the reading of UUIDs, time zones, the
-- delivery of a code, the signing and reading of JWT, HMAC, bcrypt and TOTP, and the stores
-- behind the interfaces. A statement of SQL is a function on the lists of rows, with ORDER BY as
-- an argument; which statements fail is an argument as well, and a transaction that fails leaves
-- the tables as they were. Of the transactions beside an acceptance there is the one that inserts
-- its user meanwhile. Where a theorem relies on a store, a record of laws (`Answers`) says what
-- its interface promises; the modules under Backend/Tests have stores that meet them. A failed
-- call is an answer of its own, so that the theorems without laws hold for every failure. Time is
-- an argument of each call, as in the source. Loops are recursion on lists, so no definition has
-- fuel.
--
-- Not modelled: logging, the HTTP router, handlers and JSON bodies, the clients of MQTT and
-- LiveKit, the stream of events to residents, the lists that the pages of the administration show
-- (among them Catalog, ListResidents and SiteMatrix of onboarding), the loading of the keys of QR
-- codes, the registry of devices in SQL, the codes of OTP in Redis, property, system
-- administration, configuration, the web front end. Each handler of the device is one step: it
-- takes the device's mutex, and what the emulator does between two lock sections of one handler
-- is not interleaved with other handlers. A request to the calls is one step as well, while
-- Rotate of refresh tokens is also taken apart into its store calls.
pub mod Base
pub mod Firmware
pub mod Backend
