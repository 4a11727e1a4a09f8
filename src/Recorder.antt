-- ===== src/Recorder.antt =====
-- assets/js/components/workflow-recorder-component.js: the draft of a recorded test.
pub mod Token
pub mod Draft
pub mod Blocks
pub mod Publish
pub mod Publishing
pub mod Ensures
pub mod Fresh
pub mod Invariant
pub mod Sessions
pub mod Dangling
