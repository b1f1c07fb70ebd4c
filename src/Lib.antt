-- ===== src/Lib.antt =====
-- Anteroom, a reverse proxy that admits requests by proof of work or by payment: a model of its core
-- over the native numbers, and the theorems that make it correct.
--
-- The parts, and how they interact. A request comes to the decision ladder (Gate/Ladder.antt:
-- internal/gate/gate.go `serve`, `forward`, `stripPassCookie`; internal/gate/identity.go
-- `serveClaimedIdentity`), which refuses it, answers it, or forwards it to the upstream. The ladder
-- asks bypass.Matcher for exempted paths and addresses, and for the address of the client behind
-- trusted proxies (Bypass.antt: internal/bypass/bypass.go), and asks the passes of the request
-- (Gate/Passes.antt: `validPassAt`, `scopeCovers`, `mayRenew`, `setPassCookie` of
-- internal/gate/gate.go, `matchRoute` of internal/gate/pay.go). A pass is a signed token (Token.antt
-- and Token/: internal/token/token.go). It is earned by an answer to a challenge (Gate/Answers.antt:
-- `serveChallenge`, `serveAnswer` of internal/gate/endpoints.go), and the challenge is issued and
-- verified without any state (Challenge.antt: internal/challenge/challenge.go). Or it is bought: a
-- payment is decoded (Payment/Wire.antt: internal/payment/wire.go), named and matched with the offer
-- (Payment/Identity.antt: internal/payment/verifier.go), reserved and recorded in a durable store
-- (Payment/Store.antt: internal/payment/store.go), limited and guarded by a breaker
-- (Payment/Guards.antt: internal/payment/guards.go), and settled with the facilitator
-- (Payment/Callback.antt: internal/payment/callback.go). The presentation puts these in order, from the
-- header to the paid pass (Gate/Presentation.antt: `servePayment`, `servePaidGrant` of
-- internal/gate/pay.go), with one verifier for each facilitator (Gate/Presentation/Verifiers.antt:
-- `New`, `facilitatorIdentity` of internal/gate/gate.go). A paid response goes through a writer that
-- seals it (Gate/Writer.antt: `paidWriter` of internal/gate/pay.go, `recorder` of
-- internal/gate/gate.go), a document through one that puts the renewal script into its head
-- (Gate/Injection.antt: internal/gate/injector.go, internal/gate/inject.go), and every forwarded
-- request through the proxy, which says who the client is (Gate/Upstream.antt: `newProxy` of
-- internal/gate/gate.go). A claimed search
-- crawler is authenticated by published ranges and by reverse DNS (Crawler.antt:
-- internal/crawler/verifier.go; UserAgent.antt: internal/useragent/product.go), and a request is taken
-- for the navigation of a browser by its headers (Gate/Requests.antt: internal/gate/request.go). What
-- can be bought comes from the checked configuration (Config/Price.antt, Config/Payments.antt:
-- `parsePrice`, `Payments.validate` of internal/config/config.go). Failures and successes of clients are counted
-- in a bounded log (Activity.antt: internal/activity/activity.go). Gate/Decision.antt is the
-- vocabulary of internal/gate/decision.go.
--
-- How state and operations correspond. A struct is a record with the source's fields, an operation on
-- it a function from the old state and the time to the new state and the result: `Limiter.Allow` is
-- `allow`, `Breaker.Fail` is `fail`, `GrantStore.Begin` is `begin` on the bucket, `Log.record` is
-- `note`, `CallbackVerifier.Verify` is `present`, which also lists the requests that left the gate.
-- A Go error is a constructor of an error type in `Result`; where only success matters it is `none` or
-- `false`. Strings are lists of bytes, an instant is its number of nanoseconds, a field in seconds is
-- an integer ℤ, and a Go map is an association list. The locks of the source make each operation one
-- step, so that other processes and goroutines appear as the steps between two operations
-- (Payment/Store/Trace.antt).
--
-- What comes from elsewhere is a parameter: HMAC, SHA-256, base64 and JSON (the records Crypto of
-- Token and of Challenge, Json of Payment/Store, AuthJson and WireCodec), the text of addresses
-- (NetText), the parsing of cookies, the facilitator and the transport (Facilitator, Reply), the disk
-- (Disk). The laws that a theorem needs of them are its hypotheses, IsCodec and Encodes among them, and
-- the Examples modules fill them with concrete functions.
--
-- Bounds and fuel. Loops are structural. The only fuel is in `show` of Payment/Identity.antt: 78
-- digits, enough for every number below 2 ^ 256 since 10 ^ 78 is larger; `decimal` of
-- Gate/Presentation.antt has n + 1 digits for n, and `find_point` of Gate/Injection/Document.antt tries
-- one place more than the document has bytes, each behind the one before. The big-endian fields of a
-- challenge have 8 bytes, and the theorems ask for times and lifetimes that fit. The counters of the
-- activity log do not wrap at 2 ^ 64. Rate limiter tokens are exact fractions where the source has
-- floats. Case folding and white space are those of ASCII. A Go map is read in the order of its list,
-- also where the source takes an arbitrary entry. The time in a challenge is a natural number of seconds.
--
-- What is not modelled: the configuration but for its section of payments, the command and its servers
-- (cmd, internal/admin), metrics, the wait page and the bytes of responses (internal/gate/waitpage.go),
-- the content security policies (`planCSP`, `metaPolicies` of internal/gate/inject.go), whose plan the
-- injector takes as a parameter, the text of payment offers, the
-- tables and embedded documents of crawlers, the hosted-fetcher checks, which the ladder takes as
-- parameters as it does the verdict on a crawler, and the conversion of a
-- difficulty to a threshold, which is floating-point arithmetic. The ladder takes the decision of a
-- presentation and the test for navigations as parameters, which Gate/Presentation.antt and
-- Gate/Requests.antt define. What the proxy does behind Unwrap (hijacking, deadlines) is not modelled,
-- nor Flush of the injector, and no other process steps within one presentation. The deferred calls and log lines of the
-- modelled functions are left out where they change no result.
pub mod Common
pub mod Net
pub mod Http
pub mod Activity
pub mod Bypass
pub mod Challenge
pub mod Config
pub mod Crawler
pub mod Gate
pub mod Payment
pub mod Token
pub mod UserAgent
