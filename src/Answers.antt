-- ===== src/Answers.antt =====
-- The save of questionnaire answers: `set_questionnaire_answers` of api/app/routers/write.py, for a
-- caller whose role has been checked. Spec is the engine's questionnaire with its cascades, Check what
-- is read and refused before a write, Handler the writes and the endpoint.
pub mod Spec
pub mod Check
pub mod Handler
pub mod Stored
pub mod Written
pub mod Checked
pub mod Merged
pub mod Row
pub mod Recorded
pub mod Sound
mod Tests
