-- ===== src/TaskCatalog.antt =====
-- task_catalog/: templates of tasks, whose versions are only added, and the entry that points at one.
pub mod Texts
pub mod Models
pub mod Administration
pub mod Reads
pub mod Catalogued
mod Tests
