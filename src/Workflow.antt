-- ===== src/Workflow.antt =====
-- The workflow component: sccsos/core/workflow/ and sccsos/core/step_executor.py.
pub mod Definition
pub mod Dag
pub mod Steps
pub mod Engine
