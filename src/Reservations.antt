-- ===== src/Reservations.antt =====
-- server/src/services/reservation.service.ts: seats, bookings, and their life. A transaction that takes
-- the advisory lock runs alone with respect to the others, and is one step on the database; a
-- reference is a number that stands for its text in upper case.
pub mod Capacity
pub mod Occupancy
pub mod Booking
pub mod Kept
pub mod Moved
pub mod Ended
