-- ===== src/Deployment.antt =====
-- The agent, the server and the evaluator together: what one has sent is what the other has unread. Then a
-- new authority's certificates at the evaluator.
pub mod Delivery
pub mod Evaluated
pub mod Fresh
