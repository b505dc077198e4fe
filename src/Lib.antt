-- ===== src/Lib.antt =====
-- Verification library of the identity provider: the HTTP handlers, the self-service flows of
-- internal/flow, the sign-in with an identity provider of internal/oidc, the migration from Kratos
-- of internal/migration, the stores, the policy and the authenticators that they stand on, and the
-- programs below cmd that wire them.
--
-- Parts. An HTTP request names a tenant by its slug, which a middleware resolves, and reaches a
-- handler. A handler calls a store or one of six engines: login, registration, recovery, settings
-- and verification, each a state machine whose state is a row of the flow table, and the OIDC
-- engine, which ends a login flow with what an identity provider says. An engine reads the flow
-- and the tenant's policy, asks a registered authenticator where it needs one, writes identities,
-- credentials and sessions through their stores, and moves the flow on.
--   Flow, Policy, Identity, Sso, Tenant, Errors: the types of internal/flow/flow.go,
--     internal/policy/policy.go, internal/sso/provider.go and internal/tenant/model.go, the row types
--     of internal/identity, internal/session and internal/schema, and the errors by their cause.
--   Store: the tables of db/migrations/00001_init_schema.sql and the effects of a handler;
--     Store.Flows, Store.Identities, Store.Sessions, Store.Policies, Store.Schemas, Store.Providers
--     and Store.Tenants are the stores internal/flow/store.go, internal/identity/store.go,
--     internal/session/store.go, internal/policy/policy.go, internal/schema/store.go,
--     internal/sso/store.go and internal/tenant/store.go, an operation by the name of its method.
--     Store.Frame, Store.Writes and Store.Keeping say what an operation may write, Store.Outcome reads a successful answer backwards, Store.Calm runs forwards;
--     Store.Sessions.Directory is the abstract view of the session store.
--   Authenticator and its Registry, Password, Oidc and Rest: internal/authenticator, its registry, and
--     its adapters/password, adapters/oidc and adapters/rest. Hydra: internal/hydra/client.go.
--   Engine: what the engines share. Login, Registration, Recovery, Settings, Verification: the
--     engine.go of the packages below internal/flow. Traits: the traits of an identity.
--   Oidc and Oidc.Client: internal/oidc/engine.go, with its cache of provider objects; Oidc.Resolution
--     says whom a callback signs in.
--   Http: requests and answers; Http.Login, Http.Accounts and Http.Admin are the handlers (handler.go
--     of the packages below internal/flow, internal/session, internal/sso and internal/oidc) and the
--     middleware internal/tenant/middleware.go, and Http.Router mounts them.
--   Migration: internal/migration, a run of cmd/idpctl over a Kratos database: Migration.Config and
--     Migration.Kratos are config.go and kratos.go, Migration the steps of run.go up to the providers
--     and the whole run, Migration.Accounts its identities, credentials and sessions.
--   Server: the registry and the Hydra client that cmd/idpd/main.go starts with. Tool: the command of
--     cmd/idpctl/main.go, with its dry run.
--   Requests: calls of the engines and stores, and histories of them. Isolation, Lifetimes: what
--     any history keeps. Examples: concrete databases to which the results are applied.
--
-- Model. An operation is a function of the tables and of the number of calls made so far; it
-- answers a value, an error or a panic together with the tables that it leaves. Time, random
-- tokens, new UUIDs and the failure of a call come from an environment that is asked by the number
-- of the call, so a theorem that ranges over all environments covers every order of failures and
-- every passing of time; a failed statement may have taken effect or not. Nothing runs in a
-- transaction, so what was written before an error stays. Identifiers are natural numbers, points
-- of time are nanoseconds from the epoch on, JSON columns are values of a JSON type, and slices
-- are lists, or optional lists where a nil slice is refused. All definitions recurse on their
-- data, so there is no fuel and every operation answers.
--
-- Parameters. bcrypt, the parsing of UUIDs, of durations and of JSON texts, go-oidc and oauth2
-- with the identity provider behind them, SHA-256, and the collation of the database are not
-- implemented by the code and are arguments of the definitions that use them, and so are the
-- answers of Hydra, of the REST services and of every authenticator of the registry; where a
-- theorem needs the authenticators to leave the tables alone it says so. The migration's files,
-- Base64, HTTP and YAML are parameters, and so are the tables of Kratos, which it only reads.
--
-- Not modelled. The connection pool, the middleware of chi and the HTTP server of cmd/idpd, and
-- the usage texts of cmd/idpctl; the JSON coding of answers and the routing of paths, which the
-- standard library and chi do; the mutexes of the registry and of the provider cache, and two
-- requests that interleave between two statements; log messages and the text that wrapped errors
-- add.
mod Base
pub mod Flow
pub mod Policy
pub mod Errors
pub mod Identity
pub mod Sso
pub mod Tenant
pub mod Store
pub mod External
pub mod Authenticator
pub mod Engine
pub mod Login
pub mod Migration
pub mod Verification
pub mod Recovery
pub mod Traits
pub mod Settings
pub mod Registration
pub mod Oidc
pub mod Http
pub mod Hydra
pub mod Server
pub mod Tool
pub mod Requests
pub mod Isolation
pub mod Lifetimes
pub mod Examples
