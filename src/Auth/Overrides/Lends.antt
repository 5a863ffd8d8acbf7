-- ===== src/Auth/Overrides/Lends.antt =====
-- When `authorize_override` of app/services/auth_service.py lends without the cloud.
