-- ===== src/Af.antt =====
-- Attention-FFN disaggregation (TokenSim/af): the runtime plan and the residence of KV bytes (Plan), the
-- reservations of fixed cohorts on physical workers (Resident) and the stages of its peers (Rendezvous).
pub mod Plan
pub mod Resident
pub mod Rendezvous
