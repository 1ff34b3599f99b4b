-- ===== src/Pipeline/Manage/Stable/Created.antt =====
-- An engine that the Docker client created, inspected by it.
