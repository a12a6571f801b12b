-- ===== src/Email.antt =====
-- The private email alerts: packages/shared/email_preferences.py and email_alerts.py, the outbox of
-- apps/worker/email_alerts.py and the public routes of apps/api/email_routes.py.
pub mod Rows
pub mod Bands
pub mod Events
pub mod Review
pub mod Sending
pub mod Consent
pub mod Race
mod Tests
