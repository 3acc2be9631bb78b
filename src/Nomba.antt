-- ===== src/Nomba.antt =====
-- app/services/payments/nomba.py, one child module per part of it: the JSON values of the wire, the
-- error map, the token manager, the requests, the provider's operations and the webhook.
pub mod Values
pub mod Errors
pub mod Tokens
pub mod Calls
pub mod Operations
pub mod Events
pub mod Sent
pub mod Once
pub mod Verified
pub mod Reported
pub mod Amounts
