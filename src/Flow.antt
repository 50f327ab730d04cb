-- ===== src/Flow.antt =====
-- csapex_core: how tokens pass from the outputs of a node through connections to the inputs of other
-- nodes, and how they are acknowledged (src/model/connection.cpp, src/msg/output.cpp,
-- src/msg/static_output.cpp, src/msg/input.cpp and the three transition files beside them).
pub mod Token
pub mod Net
pub mod Transition
pub mod Acknowledge
pub mod Delivery
pub mod Output
pub mod OutputTransition
pub mod InputTransition
pub mod Acknowledged
pub mod Processed
pub mod Release
pub mod Counting
pub mod Publishing
pub mod Published
pub mod Tuned
pub mod Protocol
pub mod Forwarding
pub mod Marking
pub mod Forwarded
mod Tests
