-- ===== src/Users.antt =====
-- The administration of users: api/app/routers/users.py. Body has the requests, Assign the units
-- and roles of a user, Handler the two routes that write, Granted whose scope an assignment changes,
-- Planned what an edit reads, and Recorded and Updated what a request leaves behind. The roles are
-- the rows of the role table, which nothing writes; the order of a user's assignments is that of
-- the query.
pub mod Body
pub mod Assign
pub mod Handler
pub mod Granted
pub mod Recorded
pub mod Planned
pub mod Updated
mod Tests
