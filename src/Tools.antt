-- ===== src/Tools.antt =====
-- The tools of src/tools: the registry with `invokeTool`, and the paths in the workspace.
pub mod Registry
pub mod Paths
pub mod Shell
