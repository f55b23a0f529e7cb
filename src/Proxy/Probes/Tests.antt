-- ===== src/Proxy/Probes/Tests.antt =====
-- The bandwidth probe at a concrete proxy, whose peers were last probed at time 0.
