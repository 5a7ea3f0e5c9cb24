-- ===== src/Order.antt =====
-- app/routes/order.py: POST /order, from the request's body to the response and the reservation.
pub mod Key
pub mod Expiry
pub mod Check
pub mod Calc
pub mod Pricing
pub mod Prepare
pub mod Fill
pub mod Submit
pub mod Endpoint
pub mod Ends
pub mod Outcome
pub mod Repeat
pub mod Steps
pub mod Same
pub mod Sound
pub mod Deadline
