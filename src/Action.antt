-- ===== src/Action.antt =====
-- src/action: the execution of actions. Of src/action/mod.rs, the budget of a document's requests and
-- the test for private addresses.
mod Examples
pub mod Budget
pub mod Address
pub mod Params
pub mod Send
pub mod Prepare
pub mod Execute
pub mod Builder
pub mod Validation
