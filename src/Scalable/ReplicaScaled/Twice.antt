-- ===== src/Scalable/ReplicaScaled/Twice.antt =====
-- Scaling down a second time, for every resource that keeps the laws of its interface.
