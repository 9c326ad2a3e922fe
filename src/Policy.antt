-- ===== src/Policy.antt =====
-- The policy gates between a simulated action and its execution: the critic
-- (Component_4/critic.py) and the risk classifier (Component_6/risk_classifier.py).
pub mod Numeric
pub mod Critic
pub mod Risk
