-- ===== src/FamilyLock.antt =====
-- pkg/familylock: instance families, and the guard that keeps a node group in its family.
pub mod Families
pub mod Guard
mod Tests
