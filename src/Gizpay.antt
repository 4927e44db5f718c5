-- ===== src/Gizpay.antt =====
-- GizPay, the payment service (internal/gizpay).
pub mod Store
pub mod Request
pub mod Triple
pub mod Fee
pub mod Metadata
pub mod Charge
pub mod Topup
pub mod Keeps
pub mod Subscribe
pub mod Keys
pub mod CreditCheck
pub mod Merchants
pub mod Identity
pub mod ServiceAccounts
pub mod Fixture
mod Tests
