-- ===== src/Lib.antt =====
-- The dynamic routes provisioner keeps the routes of a gateway as a source of truth wants them, and
-- gives TLS routes their certificates. This library models its core and the adapters with logic of
-- their own, in Go at these paths:
--   core/route.go, core/*/: the domain model and the interfaces (Core/Route, Core/Interfaces)
--   core/reconciler/reconciler.go: `diff` and `Reconcile` (Core/Reconciler)
--   core/orchestrator/orchestrator.go: events, `run` and the reconcile loop (Core/Orchestrator)
--   core/desired/composite.go: several sources of truth as one (Core/Desired)
--   core/trigger/composite.go: several triggers as one (Core/Trigger)
--   impl/provisioner-log, impl/provisioner-ingress, impl/provisioner-netscaler: the gateways
--     (Impl/ProvisionerLog, Impl/ProvisionerIngress, Impl/ProvisionerNetscaler)
--   impl/source-http: desired state and events by HTTP (Impl/SourceHttp)
--   impl/lease-mongo, impl/lease-kube: leader election (Impl/LeaseMongo, Impl/LeaseKube)
--   impl/source-mongo: desired state and events from MongoDB (Impl/SourceMongo)
--   impl/certstore-kube, impl/certstore-file, impl/certstore-vault: certificates that are kept
--     (Impl/CertstoreKube, Impl/CertstoreFile, Impl/CertstoreVault)
--   impl/cert-acme-http, impl/cert-acme-dns: the ACME issuers (Impl/CertAcme)
--   impl/cert-vault, impl/cert-selfsigned, impl/cert-none: the other issuers (Impl/CertVault,
--     Impl/CertSelfsigned, Impl/CertNone)
--   cmd/routes-provisioner/internal/provisioner and internal/source: the application's mappers
--     (Cmd/IngressMapper, Cmd/NetscalerMapper, Cmd/MongoMapper, and Cmd/Names for the names that
--     they share)
--   cmd/routes-provisioner/internal/certificate/challenge_server.go: the tokens of ACME challenges
--     (Cmd/ChallengeServer), and its use as the solver of the ACME issuer
--   cmd/routes-provisioner/internal/config: the configuration (Cmd/Config) and the log's handler
--     (Cmd/LogHandler)
--   cmd/routes-provisioner/main.go: which components a configuration is put together from
--     (Cmd/Wiring)
-- The orchestrator gets events from a trigger and passes each to an issuer and a provisioner; beside
-- it, and at its start, the reconciler lists the desired and the actual routes, removes and adds the
-- difference. Provisioners call the mappers, which decide identifiers and objects.
--
-- A function of the source is a function of the same name in snake case. One that can fail returns
-- a `Result` (Core/Result), with the run-time panic as a third outcome; one that acts on the
-- outside or on its own memory is an `Action` on a world `W`, so that what was done before an error
-- stays done. The Kubernetes API, MongoDB, HTTP, JSON, URL parsing, time formats and base64 are
-- parameters; theorems that need their documented behaviour take it as a record of laws (IsStore,
-- IsRuleStore, IsCollection, IsClock, IsBytes, IsFileSystem). The clients of ACME and of Vault,
-- viper, PEM, X.509 and the file system are parameters too. A gateway's contract is in
-- Core/Reconciler/Contract, and its record for the log provisioner in Impl/ProvisionerLog/Gateway.
-- A Go map is an association list in the order of insertion (Core/Dict), and the theorems speak of
-- what a map holds, not of its order. `sort.Slice` is a stable insertion sort. Concurrent
-- goroutines are sequences of steps: what the source does under a mutex is one step, and what a
-- handler or a goroutine does outside of it is a step of its own.
--
-- Fuel: the loop of `BatchProvision` that creates Ingresses runs on fuel; as many rounds as there
-- are routes are enough when an Ingress has room for one route. The digits of a number (`decimal`
-- in Cmd/Names) take the number itself as fuel, which its division by ten uses up last. Numbers are
-- natural: the maximum of routes per Ingress is taken to be at least 0, ports and weights are never
-- computed with but for the conversion to int32, and times are nanoseconds.
--
-- Not modelled: logging, but for the fields of a nil certificate that it reads, and the text handler;
-- client-go, which holds the Kubernetes lease; the setters of options; the goroutine of the HTTP
-- server; static pages. In main.go the components are named with their options rather than built, an
-- exit is an error, and the surroundings are the parameter Env. Each Examples module holds the
-- theorems at concrete inputs.
pub mod Base
pub mod Core
pub mod Impl
pub mod Cmd
