-- ===== src/Control.antt =====
-- internal/control: the control-stream server. The handlers are in the children.
pub mod Stream
pub mod Assign
pub mod Handlers
pub mod Connection
pub mod Timeout
pub mod Kept
