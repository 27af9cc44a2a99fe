-- ===== src/Cmd.antt =====
-- cmd/routes-provisioner: the configuration, the log handler, the application's mappers with the
-- names that they derive from hosts, the server of ACME challenges, and the program put together.
pub mod Names
pub mod Config
pub mod LogHandler
pub mod IngressMapper
pub mod NetscalerMapper
pub mod ChallengeServer
pub mod MongoMapper
pub mod Wiring
pub mod Examples
