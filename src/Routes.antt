-- ===== src/Routes.antt =====
-- The routes of webapi/routers/jobs.py: what is shown of a job, the pages of its items, and its
-- deletion.
pub mod Jobs
pub mod Items
pub mod Shown
pub mod Pages
pub mod Deletion
