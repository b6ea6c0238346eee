-- ===== src/Lib.antt =====
-- Estate CI: the control plane that shows the health of an estate of repositories and lets an
-- operator submit one of three fixed operations on it, with approvals, signatures and an audit
-- trail. This library models its server side, in Go, and proves what makes it correct.
--
-- The parts, and the files that model them:
--   * Contract (internal/contract): the documents that the parts exchange. Models and Snapshot have
--     the types, Patterns the regular expressions, Canonical the canonical JSON that digests and
--     signatures are taken of, Crypto the digests and the signature envelope, and Request,
--     Dispatch, DispatchResult, Receipt, Evidence and Snapshot the validation of each document. The
--     four signed documents share Document, which has the code that models.go writes out four
--     times.
--   * Storage (internal/storage): the Repository interface and the in-memory store (repository.go),
--     one function per method, with Memory/Steps for the store over time; Objects, the object store
--     over the JSON API of Cloud Storage, and Cloud, the repository over any object store (gcs.go).
--   * Auth (internal/auth): the roles, and their resolution from groups with a cache (Roles, and
--     Membership for Cloud Identity); Iap, the validator of the identity proxy's assertions, with
--     its cache of keys (Iap/Keys).
--   * Adc (internal/adc/metadata.go): the access token of the workload, and the transport with it.
--   * Github (internal/githubapp/client.go): the installation token (Tokens), the client with the
--     boundary of the estate (Client), the recovery state (Recovery) and the broker, which is the
--     dispatcher of the service: Prepare, Dispatch and Recover (Broker).
--   * Api (internal/api/server.go): the server over the service and the repository, from a request
--     to a reply (Server, with its handlers in Server/Handlers), the cross-site check and the
--     limits (Csrf), and the construction (Config).
--   * Operations (internal/operations): the catalog of fixed operations (Catalog) and the service:
--     Create (Service), what follows once a request is stored, from prepare and resume to finalize
--     (Outbox), the documents made on the way (Documents), validateEvidence (Evidence), and
--     newUUIDv4 and NewNonce (Identifiers). A handler is a function of the state (Exec): it changes
--     the store and the world, and returns a receipt or an error; what was written before an error
--     stays written.
--   * Go: what the program uses of Go's standard library: RFC 3339 times, base64, hex, strings,
--     numbers, the escapes of URLs, and the exchange of an HTTP client.
--   * Prelude: the shared names, lemmas and rulesets.
--   * Tests: a concrete signer, store and world, runs of the service on them, and an instance of
--     each theorem.
--
-- The service works over any Repository (Storage/Repository) and any Environment (the clock, the
-- random bytes, the role resolver and the dispatcher: Operations/Environment). What the theorems
-- need of them are named laws: IsOutbox, IsCounter and HasOutbox. The in-memory store as an
-- instance of the first and the last is in Operations/Service/MemoryOutbox, and the Cloud Storage
-- repository in Storage/Cloud/Outbox, with the service over it in Operations/Service/CloudOutbox.
--
-- Conventions. A text is the list of its bytes. A time is a number of nanoseconds from 1 March of
-- the year -400, so that every year that RFC 3339 can write is there. An int64 is an integer, with
-- its wrap-around written out where the code adds. SHA-256 and Ed25519 are parameters (Crypto,
-- Signer) with the laws of IsSigner. A Go map is an association list with its newest entry first;
-- where the code ranges over a map, the model takes that order.
--
-- Fuel. prepare and resume call one another, when a second caller has written the outbox record in
-- between. The fuel of create counts the calls of resume; two are enough.
--
-- Outside services. An exchange is a function of the request and the state of the world, and
-- returns a response or an error; IsServer says
-- what is relied on in Cloud Storage, over the requests as its API documents them, and IsCreateOnly
-- in an object store.
-- json.Decoder is a parameter (Decoder): the value at the start of a text, and the text behind it;
-- the checks around it, on sizes, trailing data and the fields, are written out. ReadsOnly says
-- that the reads of a repository change nothing. The elliptic curve (Ecdsa), url.Parse,
-- mime.ParseMediaType, the private key of the GitHub App and the RSA signature are parameters.
--
-- Not modelled: the command that reads the configuration and connects the parts, the reading of key
-- files, the options of constructors, logging, redirects and timeouts of HTTP clients, and the web
-- console. The details of problem replies are texts for people and left out. ToLower and EqualFold
-- fold ASCII letters only. A lock makes each method of the in-memory store, and each call of a
-- token source or of the key cache, one step; calls of the service are run one after the other.
mod Prelude
pub mod Go
pub mod Contract
pub mod Storage
pub mod Auth
pub mod Operations
pub mod Adc
pub mod Github
pub mod Api
mod Tests
