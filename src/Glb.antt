-- ===== src/Glb.antt =====
-- The load balancer of glb: loadbalancer.go and strategy.go.
pub mod Instances
pub mod RoundRobin
pub mod Weighted
pub mod LeastConnections
pub mod Balancer
mod Tests
