-- ===== src/Lib.antt =====
-- The approval server of the Concentrey vault: an MCP server that asks the owner's phone before it
-- hands values to a tool. A caller's token becomes a principal; a tool call creates an approval, wakes
-- the linked phones and polls the shared store; the phone signs one decision over the exact result;
-- the server decrypts what was approved and reports it.
--
-- The files and the code they are about, under src/soffortbackend:
--   Models          models.py. Records of the same names and fields; `from_access_token`,
--                   `partition_key`, `with_etag`, and `is_expired` for the property `expired`.
--   Catalog         catalog.py. `parse_property_keys`, `validate_property_metadata`.
--   Store.Memory    store.py, InMemoryApprovalStore. The store is the record `Memory`; each method is
--                   a function of the clock and the store, and returns its result or exception with
--                   the store after it. `Calls` has the histories of calls.
--   Store.Documents store.py: the documents of the Cosmos DB store, `_profile_document` and the others
--                   without the underscore. `Store.Conversions` has `_iso`, `_datetime` and what the
--                   documents ask of CPython, the record `Python`.
--   Store.Cosmos    store.py, CosmosApprovalStore, over the record `Container` of the operations of the
--                   SDK; each call of the container is an await.
--   Settings        settings.py: the fields of `Settings` with their limits, and
--                   `validate_security_boundaries`.
--   Auth            auth.py: `Jwks` has JwksCache, whose `_refresh` is `refresh`, and `Verifier` has
--                   `verify_token` of EntraTokenVerifier.
--   DeviceSecurity  device_security.py. The message builders take their fields as a record.
--   Disclosure      disclosure.py: `decrypt`, the hashes, and the private validators.
--                   `decode_segment` is `_decode`. `Keys` has the public key and its life cycle, and the
--                   fixture decryptor.
--   Approval        approval.py: `_validate_result` and its parts; `Service` has the methods of
--                   ApprovalService, over the record `ApprovalStore` of the operations that it calls.
--   Tools           tools.py: the results and messages for the caller.
--   Notifications   notifications.py. The notifier is the record `Notifier` of the attributes that
--                   change; `push` and `classify` are the two ends of `_send_one`.
--   MobileApi       mobile_api.py: `execute` is `_execute`, with the token check and the mapping of
--                   exceptions; `put_device` is the operation that links a phone; `Deciding` has that of
--                   `decide_approval`, as `decide_route`, and `Routes` the others. `handle` of `Server`
--                   runs any of them under `execute`, as the registered routes do. A route ends with the record that its JSON is written from; `Responses`
--                   has that JSON and the reader of bodies, `read_object` for `_read_object`.
--   Logging         logging.py: the payload of a log line, and the middleware as `serve`.
--   App             app.py: `lifespan`, the two tools, and `readyz`.
--   Prelude         what the files share: Python's dictionaries, texts, decimal numbers, base64url,
--                   UTF-8, JSON values and `json.dumps`, exceptions as values.
--   Examples        small inputs on which the theorems are applied.
--
-- Numbers are natural numbers; a datetime is a number of microseconds since the epoch, and the
-- service's timeout and poll interval are in the unit of its clock. Texts are strings of code points.
-- Of an exception only the class is kept, and of the program's own what its handlers read.
--
-- At each await of the service other tasks may run. A `World` carries, beside the store and the
-- clock, what they will do at the next awaits: each turns the store into any other and takes any time.
-- A cancellation is the failure `cancelled`,
-- which the adapters may return. One clock stands for the wall clock and the monotonic one.
--
-- The polling loop has fuel: as much as the timeout, since each round sleeps for the poll interval and
-- the clock never goes back.
--
-- Not under src and taken as parameters: Unicode normalisation and categories (`Unicode`), P-256 and
-- SHA-256 (`Crypto`), JSON reading, ISO 8601 reading, Key Vault's unwrapping and AES-GCM (`Platform`),
-- the vault, the HTTP client and the token encoder of the notifier, the Cosmos DB container, the HTTP
-- client and the key parser of the key cache (`Client`), PyJWT (`Jwt`), URL parsing (`Urls`), and the
-- text and time conversions of CPython (`Python`, `Reader`). The random nonces and identifiers of a
-- request are drawn outside (`Fresh`). What the theorems on the Cosmos DB store need of the container is
-- `IsConditional` and `ReturnsItems`, and of CPython `ReadsTimes`.
--
-- The monotonic clock of the key cache counts microseconds from the same origin as the clock of the
-- tasks. The cache is changed under its lock, so other tasks act on it only before a refresh has it.
--
-- Not modelled: the reading of the environment into settings, the headers of problems, the duration in
-- an access line, the wiring of the MCP SDK and Starlette in `create_app`, main.py and the
-- operational scripts, which call Azure, YAML and HTTP tools. The adapters' constructors and closes only
-- call their libraries.
pub mod Prelude
pub mod Models
pub mod Catalog
pub mod Store
pub mod DeviceSecurity
pub mod Disclosure
pub mod Approval
pub mod Settings
pub mod Auth
pub mod Tools
pub mod Notifications
pub mod MobileApi
pub mod Logging
pub mod App
pub mod Examples
