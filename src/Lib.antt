-- ===== src/Lib.antt =====
-- SREOnCall: the Go services of an on-call platform.
--
-- Alerts come in through services/ingestion, which puts them on the broker. services/incident groups
-- them into incidents and tells the broker of each incident that is created or changes status.
-- services/escalation follows those messages: it starts an escalation by the tenant's default policy,
-- moves it from tier to tier as its timeouts pass, and stops it when the incident is acknowledged or
-- resolved; at each tier it asks services/scheduling who is on call and publishes a message, from which
-- services/notification tells that person.
--
-- Modelled:
--
-- Scheduling (services/scheduling/internal/rotation/rotation.go, .../domain/schedule.go)
--   Scheduling/Duration    ParseISO8601Duration on the bytes of its text, int64 wrap-around written out
--   Scheduling/Rotation    fromRotation, OnCallAt, the loop of GenerateShifts
--   Scheduling/Overrides   applyOverrides
--   Scheduling/Generate    GenerateShifts
--   Scheduling/Roster      the tables; Roster/Schedules and Roster/Tenants are store/store.go,
--                          Roster/TokenIndex is tokenindex/index.go
--   Scheduling/Handlers    handler/handler.go: Handlers/Shifts, Handlers/Accounts, Handlers/Configs
--   .../Handlers/Requests  the routes of services/scheduling/cmd/server/main.go
-- Escalation (services/escalation/internal, pkg/events/events.go)
--   Escalation/Types       domain/policy.go and the tables
--   Escalation/Policies    store/store.go: policies, tiers and tenants' defaults
--   Escalation/States      store/store.go: escalation states, their guarded update, history
--   Escalation/Escalator   escalator/escalator.go, whole
--   Escalation/Worker      consumer/consumer.go (handle), monitor/monitor.go (step)
--   Escalation/Handler     handler/handler.go past the decoding of bodies
--   .../Handler/Reachable  the routes of services/escalation/cmd/server/main.go
-- Incident (services/incident/internal, pkg/domain/alert.go)
--   Incident/Types         domain/incident.go and the tables
--   Incident/StateMachine  statemachine/statemachine.go
--   Incident/Incidents     store/store.go: incidents, labels, alerts, status changes
--   Incident/Records       store/store.go: comments, history, grouping rules
--   Incident/Consumer      consumer/consumer.go (handle and all below it)
--   Incident/Handler       handler/handler.go: the handlers that write
-- Ingestion (services/ingestion/internal)
--   Ingestion/Dedup        dedup/dedup.go, dedup/redis.go
--   Ingestion/Process      handler/handler.go (processAlerts), store/store.go, publisher/publisher.go
--   Ingestion/Normalize    handler/normalize.go, handler/alertmanager.go, handler/grafana.go
--   Ingestion/Webhook      middleware/tenant.go, tokenstore/tokenstore.go, the two webhooks
-- Notification (services/notification/internal)
--   Notification/Types        domain/domain.go, and what the service reaches
--   Notification/RateLimit    ratelimit/ratelimit.go with its Lua script
--   Notification/Store        store/store.go, handler/handler.go past the decoding of requests
--   Notification/TenantCache  tenantcache/cache.go over schedclient/client.go
--   Notification/Dispatcher   dispatcher/email.go, dispatcher/mattermost.go
--   Notification/Notifier     notifier/notifier.go, its texts in Notification/Texts
--   Notification/Consumer     consumer/consumer.go
-- Broker (pkg/amqp/consume.go)
--   Broker/Consume         process, the options, the waits of Consume
--
-- The other files below these prove what is listed under Results, and each Tests file holds runs at
-- concrete inputs. Prelude has lists, results, tests and integers.
--
-- Effects says how a service reaches its database, the broker and its peers. Each call, one for each SQL
-- statement, message or request, may fail, by a list of outcomes that is given from outside, so a
-- theorem over all lists is one over all patterns of failures. A call that fails does nothing, and an
-- error keeps what errors.Is, ErrDrop and ctx.Err() tell apart. A transaction leaves the tables as they were where
-- its body or its commit fails. A commit whose outcome is not known, and statements of other
-- connections within a transaction, are not modelled: a transaction is one step, and workers run one
-- after the other. That several workers read the same row before any of them writes is modelled: they
-- are given the row that they read. The clock stands still within a handler. The keys of
-- the deduplication cache expire outside the model.
--
-- Requests that meet in a miss of the tenant cache share one fetch in the code; the model takes them one
-- after the other. Redis drops the hashes of the limiter by a clock that is taken to agree with the
-- service's. A wait between the attempts of a dispatcher may be cancelled by its context, and takes no time.
--
-- The handlers of services/scheduling and services/escalation are given the decoded parts of a request. Requests are served one
-- after the other, but for the theorem on two that create overrides at once. Keycloak, SHA-256, the
-- check of addresses and the parsing of dates are the parameter Library of Scheduling/Handlers.
--
-- Instants are natural numbers of nanoseconds. time.Time.Sub stops at the largest time.Duration, as in
-- Go. The packages time and strings are the parameter TimeLib of Scheduling/Rotation; SHA-256 and
-- encoding/json are parameters of Incident. Texts of the tables are compared as wholes.
--
-- Fuel: the loop of ParseISO8601Duration drops a byte in each round, so the length of the text is
-- enough. The loop of GenerateShifts moves by a nanosecond or more in each round wherever it ends, so
-- the length of the window and one more is enough; where it does not end no fuel is enough, and the
-- model answers `stuck` with any fuel.
--
-- Not modelled: the JSON of payloads and requests, the paging of ListIncidents and the handlers of services/incident that only read;
-- the connection and the worker pool of pkg/amqp, pkg/auth, pkg/httpserver, pkg/httpclient and pkg/ssrf;
-- the client of Keycloak; tenantSlugs of services/notification; metrics, logs, configuration and most of the entry points; the frontend and
-- the deployment.
mod Prelude
pub mod Effects
pub mod Scheduling
pub mod Escalation
pub mod Incident
pub mod Ingestion
pub mod Notification
pub mod Broker
