-- ===== src/Dataflash/Tests.antt =====
-- Concrete files and root nodes on a flash with a fresh file system.
mod Names
mod Pages
