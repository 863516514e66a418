-- ===== src/Ads.antt =====
-- internal/ads: the ADS commands, their requests and their responses.
pub mod Requests
pub mod Responses
pub mod Errors
pub mod Notification
