-- ===== src/Rescue.antt =====
-- When a run may stop and how it is rescued where its candidates are too weak: the stop guidance
-- of runtime/controller_context.py and the router of runtime/rescue_router.py.
pub mod Guidance
pub mod Router
pub mod Broaden
