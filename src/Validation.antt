-- ===== src/Validation.antt =====
-- src/utils/input_validation.py: checks of what comes from outside.
pub mod Addresses
pub mod Urls
pub mod Inputs
pub mod Requests
pub mod Limiter
