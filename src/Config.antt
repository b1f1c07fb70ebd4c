-- ===== src/Config.antt =====
-- internal/config: the configuration, its checks and its defaults.
pub mod Price
pub mod Payments
pub mod Pricing
pub mod Offering
pub mod Validated
pub mod Examples
