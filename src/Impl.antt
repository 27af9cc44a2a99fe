-- ===== src/Impl.antt =====
-- impl/: the implementations of the interfaces of core/.
pub mod ProvisionerLog
pub mod ProvisionerIngress
pub mod ProvisionerNetscaler
pub mod LeaseMongo
pub mod LeaseKube
pub mod CertNone
pub mod CertSelfsigned
pub mod CertAcme
pub mod CertstoreKube
pub mod CertstoreFile
pub mod VaultApi
pub mod CertVault
pub mod CertstoreVault
pub mod SourceHttp
pub mod SourceMongo
