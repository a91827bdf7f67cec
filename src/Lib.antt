-- ===== src/Lib.antt =====
-- The private-network extension for Gardener: a controller that gives the API server of a shoot
-- cluster a load balancer in the worker network of an OpenStack cloud, with a floating IP where the
-- cluster is public, and a health check for that load balancer.
--
-- The parts of the program and the files that model them:
--   Constants, Fault      pkg/constants/const.go, and the errors that the code makes and compares.
--   OpenStack, Kube       the objects of gophercloud and of Gardener, with the fields that are used.
--   IpNet                 pkg/helper/ipnet.go: sets of IP networks; Classes has them as a quotient,
--                         up to the order in which a map was filled.
--   FloatingSubnet        pkg/helper/openstack.go: floatingSubnetSpec, its name patterns and tag
--                         expressions, and ListSubnetsForNetwork.
--   Config                pkg/extensionspec, pkg/helper/config.go, cluster.go and infrastructure.go, and
--                         the readers of pkg/controller/lifecycle/actuator.go.
--   Wait                  the interface of the backoff library.
--   LoadBalancer          pkg/helper/openstack.go: Clients (initialClientOpenstack and the service
--                         clients), Waiting (WaitActiveAndGetLoadBalancer, waitLoadbalancerDeleted),
--                         Lookup (GetLoadbalancerByName), Creation (CreateLoadBalancer), Deletion
--                         (DeleteLoadbalancer), Listeners (CheckLoadBalancer, getListenerByName).
--   FloatingAddress       pkg/helper/openstack.go: AttachFloatingIP, GetFloatingIPLoadbalancer.
--   Actuator              pkg/controller/lifecycle/actuator.go: Reconcile, Delete, Restore, Migrate.
--   HealthCheck           pkg/controller/healthcheck/util.go: Check.
--   Startup               cmd/gardener-extension-private-network and the two files add.go under
--                         pkg/controller: options, the steps of run, and the registrations; Command
--                         has the command line and main.
--   World                 how the parts talk to what is round them, below.
--   Base, Text            shared names, list and text helpers.
--   Tests                 a small cloud, and the theorems at concrete data.
--
-- Functions that call out are actions (World.Monad): from the calls made so far, newest first, to an
-- outcome, which is a value, an error or a panic, and all calls made. A call is a constructor of
-- World.Calls.Call, one for each request to OpenStack, each read or write of the Kubernetes API and the
-- clock. An environment (Env) answers a call from the calls before it, so that the cloud may change
-- between any two calls, on its own or because of them. Nothing is assumed of it but in the hypotheses
-- of a theorem. The do blocks follow the source statement by statement: or_fail and on_error are
-- `if err != nil` with the wrapped error, attempt is a call whose error the code looks at, and non_nil
-- is a read through a pointer. Log lines are left out. Reconcile calls the parts in this order: the
-- settings (Config), the addresses of the Istio ingress (Actuator), GetLoadbalancerByName, then
-- CreateLoadBalancer where there is none, the status tests, CheckLoadBalancer, AttachFloatingIP, and
-- the patch of the status.
--
-- Actuator.Lifecycle says what the Actuator promises without the calls: the phases of a load balancer,
-- and the result and the next phase of each operation. Its children relate the program to that.
-- Actuator.Isolation.Histories has the histories of calls of a controller that runs for long, as a
-- relation of reachability over the operations of the Actuator and the health check.
--
-- World.Emits, World.Costs, World.Ensures, World.Triples, World.Breaks, World.Guards and World.Runs
-- have one rule for each way to build an action: for the calls that it may make, for how many it makes,
-- for what holds where it returns (Triples: from what held before, so that calls are placed within one
-- run), for what holds where it panics, for calls that need a justification in the history, and for its
-- outcome and writes where the answers of the environment after the writes so far are known. The
-- theorems about the parts compose into those of the Actuator by these rules. Tests.Progress has a cloud that remembers what
-- was created and deleted, and Tests.Phases one whose load balancer also breaks and recovers.
--
-- Parameters, for code that is not of this repository: the answers of Env; the backoff of the wait
-- library with WaitLaws (polls up to the number of steps, then an error that Interrupted knows); the
-- readers and writers of JSON and gcfg (Codec, with CodecLaws where a state is read back); regexp and
-- glob compilation (Patterns); ParseCIDR and String of networks (Net); the order in which Go ranges over
-- a map (`order`, one for each place that builds a slice); the tag filters of Neutron (FilterLaws); and
-- the libraries that the process is started with (Library, CommandLine).
--
-- Loops are structural recursion, on the lists that the source ranges over. The waits are bounded by
-- the number of their polls, 25 for ACTIVE and 12 for a deletion, as in the source. Numbers are natural
-- numbers; times are in nanoseconds.
--
-- Not modelled: the text of formatted messages (an error keeps its format and arguments), log lines, the
-- parsing of flags, the logger and the seed client that are injected into the health check, and the
-- Gardener and controller-runtime libraries that call the actuator, retry it and recover from its panics.
pub mod Base
pub mod Constants
pub mod Fault
pub mod Text
pub mod OpenStack
pub mod Kube
pub mod World
pub mod FloatingSubnet
pub mod IpNet
pub mod Config
pub mod Wait
pub mod LoadBalancer
pub mod FloatingAddress
pub mod Actuator
pub mod HealthCheck
pub mod Startup
pub mod Tests
