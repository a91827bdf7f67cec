-- ===== src/LoadBalancer.antt =====
-- pkg/helper/openstack.go: the load balancer of an extension.
pub mod Calls
pub mod Tracing
pub mod Origins
pub mod Costs
pub mod Clients
pub mod Waiting
pub mod Lookup
pub mod Creation
pub mod Deletion
pub mod Listeners
pub mod Runs
pub mod Repair
