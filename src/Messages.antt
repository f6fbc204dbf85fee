-- ===== src/Messages.antt =====
-- The messages that the interface shows: their texts in a language (frontend/src/composables/useI18n.ts)
-- and how the backend's Chinese sentences are recognised (frontend/src/utils/errShapes.ts) and said
-- again in the user's language (frontend/src/utils/msgText.ts, frontend/src/utils/backendMsg.ts).
-- Shapes reads and matches one shape, Signals1 to Signals3 and Table hold the known sentences, Language
-- looks texts up, Render puts the parts together; the other files hold proofs.
pub mod Shapes
pub mod Signals1
pub mod Signals2
pub mod Signals3
pub mod Table
pub mod Language
pub mod Render
pub mod Matching
pub mod Priority
pub mod Rounds
pub mod Fallback
pub mod Lines
pub mod Filling
