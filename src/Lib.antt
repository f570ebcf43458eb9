-- ===== src/Lib.antt =====
-- Verification of awesome-lambda-auth: its stores over a DynamoDB table (sessions and refresh
-- rotation, single-use tokens, authorization codes, linked accounts, rate limiting), the migration
-- of users from another directory, and the configuration that a deployment starts with.
--
-- The program is an authentication service for AWS Lambda. cmd/auth composes the authentication
-- core, a library outside the repository, with the stores of internal/store/dynamodb, which keep
-- everything in one table, and with a rate limiter in front of the routes. The stores hold no
-- state between calls: the table is the state, and every guarantee rests on a conditional write or
-- a transaction.
--
-- What models what:
--   * Database: items, conditions, updates, and the record `Dynamo`, the service as an interface: a
--     table, `get_item`, `write_item` (PutItem, UpdateItem and DeleteItem) and
--     `transact_write_items`, with the documented laws of conditional writes and transactions. Any call
--     may fail, and a write that failed may have been applied. Database/Expression models
--     internal/store/dynamodb/item.go; Database/Local is a service in memory that meets the laws.
--   * Errors, Env, Items: errors as values, the options of the `Store` and a call's clock, and the
--     decoding of timestamps and versions.
--   * Keys: internal/store/dynamodb/keys.go. Keys/Injective: different things get different keys.
--   * Transaction: `transactWrite` and the readers of a cancellation (store.go, errors.go).
--   * Session: internal/store/dynamodb/sessions.go and rotation.go. Session/Store has one function per
--     method (`create_session` is `CreateSession`, `rotate` is `rotate`, and so on); each takes the
--     table and returns it with the result, and the rotation scope of the request where it uses one.
--     Session/History is the step relation of what other requests and TTL can do between two calls;
--     Session/Methods shows that each method is a few of its steps.
--   * Users, Tokens: `userFromItem` (users.go), and tokens.go with feature_tokens.go. A `tokenFamily`
--     is a constructor of `Family`, and its fields are functions.
--   * Accounts: creating, finding and renaming a user (users.go), with the uniqueness item of an address;
--     Accounts/Factors is totp.go. Accounts/Deletion has the deletion and the listing of users, and the
--     listings of sessions.go and linked_accounts.go that the deletion sweeps by.
--   * AuthCodes: auth_codes.go, over `consumeItemOnce` of tokens.go.
--   * Linking: linked_accounts.go, the accounts of OAuth providers, and, in Linking/Pending,
--     pending_links.go, the stash of a flow.
--   * Paging: paging.go, over the answers of the service to the successive queries, and, for a paged
--     query, over what it asks for (`Replies`). Paging/Batch has the
--     batch calls with their slices and retries, over the service's batches as an interface (`Batches`).
--   * RateLimit: internal/store/dynamodb/rate_limit.go, the shared counter.
--   * Limiter: cmd/auth/ratelimit.go, the in-process tier in front of it and the middleware.
--   * Migrating: internal/store/migrating/limiter.go, the token buckets in front of the directory that
--     users are migrated from. Migrating/Marker is internal/store/dynamodb/migration.go with the reads
--     and the write of users.go that carry a marker; Migrating/Directory is migrating.go, and
--     Migrating/Verifier verifier.go. The directory (`CognitoDirectory`) is a parameter: what it answers
--     during the call.
--   * Configuration: internal/config. Blocks and Surfaces are the structs of config.go, Defaults its
--     `Defaults`; Checks has the diagnostics (errors.go) and the accessors; Validate, with Credentials,
--     Clients, Providers and Deployed, is validate.go; Rules and StoreRules are rules.go, one function
--     per rule, and Rules/Safe the table of what the rules demand; Phases, Duration and Secrets are
--     phases.go, duration.go and secret.go; Load is load.go from the layered tree on.
--   * Tests: concrete runs, with the service in memory.
--
-- How it is modelled: an instant is a natural number of nanoseconds since the Unix epoch, and 0 is
-- Go's zero time. A timestamp in an item is kept as its instant, since the layout has a fixed
-- width and texts of it compare as their instants do. Generations and counters are natural
-- numbers: an int64 that grows by one for each call does not wrap. A method reads the clock once,
-- and the two tiers of the rate limiter share one reading. A spent wait between two attempts of a
-- transaction is the parameter `waits`; there are four attempts, so the loop is recursion on the
-- three retries that are left, and a batch has eight attempts, which bound its loop in the code
-- itself. The limit and the offset of a listing are Go ints of 64 bits, and their sum wraps.
-- Pre-images may be missing from a refusal. The functions of the Go library that are not computed
-- are parameters: `strconv.FormatInt` and `formatTime` in keys, `strings.ToLower`,
-- `strings.TrimSpace`, `normalizeEmail` and SHA-256 in the stores; Configuration/Text writes out
-- the functions on texts that need no table of Unicode. The request that the middleware sees has
-- its body parsed, as the fields that are there. Mutexes and logging are left out. Token buckets
-- count in units small enough that a rate is a whole number of them for each nanosecond, where Go
-- rounds floating-point numbers. A watched id is created once: ids are random.
--
-- In Configuration a diagnostic is a rule, a path, a source and a severity, without its prose. The
-- functions of the Go library and of net/url that the checks call are the record `Std` of
-- parameters, and a Go map is an association list that a loop over its keys reads sorted, as the
-- code sorts them; the order in which a loop over an unsorted map reports is the list's. The tree
-- that the document and the environment produced is the argument of `load`, with what producing it
-- reported.
--
-- Not modelled: the other entities of internal/store/dynamodb, the metadata of a user in its own
-- partition but for its keys, the decoding of the configuration's document and its table of
-- environment variables, and internal/lambdahttp. The composition root, the AWS clients and the
-- tools are wiring around services and a core that are not in the repository.
pub mod Common
pub mod Errors
pub mod Database
pub mod Items
pub mod Env
pub mod Keys
pub mod Users
pub mod Tokens
pub mod AuthCodes
pub mod Configuration
pub mod Accounts
pub mod Transaction
pub mod Session
pub mod RateLimit
pub mod Limiter
pub mod Migrating
pub mod Linking
pub mod Paging
pub mod Tests
