-- ===== src/Routing.antt =====
-- Routing of board tasks to lanes: src/inference_grid/lanes/meta.py, select.py and route.py.
pub mod Views
pub mod Meta
pub mod Select
pub mod Route
