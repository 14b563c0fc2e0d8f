-- ===== src/Quota.antt =====
-- Quotas: the usage quotas of user tiers (`QuotaManager` and `require_quota` of
-- src/api/middleware/rate_limit.py) and the resource quotas (`QuotaManager` of
-- src/optimization/resource_manager.py).
pub mod Usage
pub mod Resources
