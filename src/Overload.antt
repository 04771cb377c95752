-- ===== src/Overload.antt =====
-- The shedding of effects under overload (backend/overload_policy.py): Shedding has the plan, Safety what may
-- be in it.
pub mod Shedding
pub mod Safety
mod Tests
