-- ===== src/Tests.antt =====
-- Concrete runs: every theorem of the list in Lib.antt that has conditions, at an input that meets
-- them.
pub mod Kernel
pub mod Rules
pub mod Ids
pub mod Lists
pub mod Cache
pub mod Ports
pub mod Outgoing
pub mod Callbacks
pub mod Snoop
pub mod SnoopCache
pub mod VrfTool
