-- ===== src/Service.antt =====
-- app/app.py: the service as its clients meet it, from a request through the hooks of
-- app/security.py and the guard of app/decorators.py to the handler and the envelope of the answer.
pub mod Envelope
pub mod Control
pub mod Serve
pub mod Routes
pub mod Halt
