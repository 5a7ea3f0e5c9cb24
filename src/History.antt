-- ===== src/History.antt =====
-- app/routes/history.py, with app/deal_window.py, app/request_limits.py and the look-ups of a deal and
-- of an order in app/lib.py.
pub mod Window
pub mod Details
pub mod Endpoints
pub mod Bounds
pub mod Sorting
pub mod Ends
