-- ===== src/Lib.antt =====
-- GizWay is an AI gateway that sells model calls; GizPay is its payment service. GizWay rates the
-- usage of every call (internal/gizway/protocol.go), and reports the price to GizPay, which charges
-- the payer: it takes the platform fee, credits the Merchants and keeps a double-entry ledger with
-- projections of it for clients (internal/gizpay/handler.go, data/sql/gizpay/migrations).
--
-- Files and code:
--   Rating            priceRow, rate, ratedUsage, ceilMulDiv of internal/gizway/protocol.go
--   Credit            creditState, admit, snapshot, consumeLocalCredit and pruneCreditStates of
--                     internal/gizway/protocol.go and internal/gizway/handler.go; below it Check
--                     (checkCredit and applyTo)
--   Targets           pricesCoverMetrics and resolvedCall.selected of internal/gizway/protocol.go;
--                     below it Prices (comparePrices), Cheapest (cheapestTargets, with the sort and the
--                     cut in Sorting) and Resolve (resolveCall)
--   Catalog           New, Start, Close, Current, fetch and refreshLoop of
--                     internal/catalogtoken/manager.go
--   Realtime          createRealtimeSecret, pruneRealtimeSessions and the entry of realtimeSocket of
--                     internal/gizway/protocol.go
--   Gizpay.Store      the tables and constraints of data/sql/gizpay/migrations/000001_schema.sql
--   Gizpay.Request    one HTTP request of internal/gizpay/handler.go: statements, early returns with
--                     errorJSON, and the database transaction with its rollback
--   Gizpay.Fee        platformFee
--   Gizpay.Metadata   validateOrderMetadata
--   Gizpay.Charge     postLedger, insertEntry and the queries of createCharge; below it Validation
--                     (the checks of the body), Create (the statements of the transaction) and Handler
--                     (createCharge itself)
--   Gizpay.Topup      the POST of accountTopups
--   Gizpay.Subscribe  createSubscription and the PATCH of subscriptionResource
--   Gizpay.Keys       the revocation, reading and creation of subscriptionKeys, writeKey, keyMap
--   Gizpay.CreditCheck  creditCheck
--   Gizpay.Merchants  the POSTs and PATCHes of merchants, merchantResource, merchantProducts and
--                     productResource
--   Gizpay.Identity   initializeIdentity; below it Signature (validateActionSignature) and Webhook
--                     (zitadelUserAuthenticated)
--   Gizpay.ServiceAccounts  validServiceAccountRoles, revokeServiceAccount and the POST of
--                     serviceAccounts
--   Outbox            the tables of data/sql/gizway/migrations/000001_schema.sql that the Charge Outbox
--                     uses, and statements whose answers may be lost; below it Report (reportOutbox
--                     and markOutboxReported of internal/gizway/protocol.go), KeyUse
--                     (markProviderKeyUsed) and Worker (completeCall,
--                     and the start and ticks of the worker in internal/gizway/handler.go)
--   Gizpay.Triple (what holds after a request that goes through), Gizpay.Keeps (what holds whatever its
--   outcome) and the other modules below Gizpay.Charge hold the proofs: Posting, Postings, Legs and
--   Balanced follow the ledger entries, Books states the invariant, Effects and Projection follow the
--   other statements, Consistency and Writing put the stages together, Reading, Result and Once are
--   about the handler. The modules below the other parts are named for what they prove.
--   Int, Int64, Text, Prelude   numbers, strings, lists and orders
--
-- The model: a request is a function from a world to an outcome and a world. The world has the
-- store, a function that says which statement fails in the database or on the way to it or back, one
-- that says which of them takes effect nonetheless and which commit has its answer lost, the values
-- of uuid.NewString and the time; a theorem holds for all of them. int64 arithmetic wraps around in
-- Go and is written so; a BIGINT of PostgreSQL refuses. The Outbox has its own world: a statement of
-- it works, fails, or takes effect with its answer lost, and GizPay is a parameter, of which
-- IsFaithful says what its answers mean. The queries of resolveCall, the HTTP clients of checkCredit
-- and of the token manager, the token validator, the HMAC of a webhook, the UUID library and the
-- identity provider are parameters too. No definition needs fuel: all loops are over lists; the
-- endless loop of refreshes is its rounds, each a call of Current after its delay.
--
-- Not modelled: JSON decoding and the texts of messages; the owner's identity columns and snapshots,
-- which nothing reads back; locks, as a request is modelled alone; the lists that the handlers
-- answer a GET with; the execution log; the relay of a realtime session; the requests that are
-- sent (their headers and forms); the other handlers of GizPay and GizWay, the Bifrost adapter, identity
-- checks, configuration and start-up.
pub mod Prelude
pub mod Int
pub mod Int64
pub mod Text
pub mod Rating
pub mod Gizpay
pub mod Credit
pub mod Catalog
pub mod Targets
pub mod Outbox
pub mod Realtime
