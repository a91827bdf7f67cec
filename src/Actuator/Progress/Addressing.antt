-- ===== src/Actuator/Progress/Addressing.antt =====
-- The ways in which `AttachFloatingIP` comes to the address that it returns, each with what the cloud
-- answers.
use gardener_extension_priva.Base.{String, ◌≡◌, true, false, none, some, List, [], ◌∷◌}
use gardener_extension_priva.Fault.{ok, returned}
use gardener_extension_priva.OpenStack.{LoadBalancer, FloatingIp, Subnet, Network}
use gardener_extension_priva.Kube.{Extension}
use gardener_extension_priva.World.{Call}
use gardener_extension_priva.World.Runs.{Answers, Runs}
use gardener_extension_priva.FloatingSubnet.{network_opts}
use gardener_extension_priva.LoadBalancer.Runs.{Connected}
use gardener_extension_priva.FloatingAddress.{available_in, attach_floating_ip}
use gardener_extension_priva.FloatingAddress.Runs.{
  at_port, attach_floating_ip-Runs, detach_some-Runs, obtained-Runs,
}
use gardener_extension_priva.Actuator.{Runtime}
use gardener_extension_priva.Actuator.Runs.{Settings, config_in}
use gardener_extension_priva.Actuator.Progress.{fitting, fitting-Settled}
use gardener_extension_priva.Actuator.Progress.Creation.{address_in, subnets_of_pool-Runs}

module _ (rt : Runtime) (ex : Extension) (s : Settings rt ex)
    (c : Connected rt.env (config_in rt ex s)) where
  -- How the cluster gets the address that is reported, and the writes that this takes: nothing has to
  -- change, a private cluster has its floating IP updated without a port, or a public one gets a new
  -- floating IP.
  pub data Addressing (lb : LoadBalancer) (w : List Call) : String → List Call → Type 0 where
    fits :
        (fips : List FloatingIp) (address : String)
        → Answers rt.env w (at_port c.network lb) (ok (ok fips))
        → fitting lb s.spec.private_cluster fips ≡ some address
        → Addressing lb w address []
    updated_portless :
        (fip updated : FloatingIp) (fips : List FloatingIp)
        → Answers rt.env w (at_port c.network lb) (ok (ok (fip ∷ fips)))
        → s.spec.private_cluster ≡ true
        → Answers rt.env w (Call.update_floating_ip c.network fip.id none) (ok updated)
        → Addressing lb w lb.vip_address (Call.update_floating_ip c.network fip.id none ∷ [])
    obtains :
        (network_lb pool : Network) (pools : List Network) (subnet : Subnet) (subnets : List Subnet)
        (fip : FloatingIp)
        → s.spec.private_cluster ≡ false
        → Answers rt.env w (at_port c.network lb) (ok (ok []))
        → Answers rt.env w (Call.get_network c.network s.worker.network.id) (ok network_lb)
        → Answers rt.env w
            (Call.list_networks c.network s.worker.floating_pool_name)
            (ok (ok (pool ∷ pools)))
        → Answers rt.env w
            (Call.list_floating_ips c.network (available_in pool network_lb))
            (ok (ok []))
        → Answers rt.env w
            (Call.list_subnets c.network (network_opts pool.id))
            (ok (ok (subnet ∷ subnets)))
        → Answers rt.env w
            (Call.create_floating_ip c.network (address_in ex lb pool network_lb subnet.id))
            (ok fip)
        → Addressing lb w fip.floating_ip
            (Call.create_floating_ip c.network (address_in ex lb pool network_lb subnet.id) ∷ [])

  pub Addressing-Runs :
      {lb : LoadBalancer} {w : List Call} {address : String} {ws : List Call}
      → Addressing lb w address ws
      → Runs w
          (attach_floating_ip rt.env rt.patterns rt.codec (some lb) (config_in rt ex s) ex)
          (returned address)
          ws
  Addressing-Runs {lb} {w} (Addressing.fits fips address at e) =
      attach_floating_ip-Runs rt.env rt.patterns rt.codec (config_in rt ex s) c lb ex w s.spec fips
        address [] s.reads_spec at
        (fitting-Settled rt ex s c lb w fips address s.spec.private_cluster e)
  Addressing-Runs {lb} {w} (Addressing.updated_portless fip updated fips at private updates) =
      attach_floating_ip-Runs rt.env rt.patterns rt.codec (config_in rt ex s) c lb ex w s.spec
        (fip ∷ fips) lb.vip_address _ s.reads_spec at
        (rw private (
          detach_some-Runs rt.env rt.patterns rt.codec (config_in rt ex s) c lb ex w fip updated
            updates))
  Addressing-Runs {lb} {w}
        (Addressing.obtains network_lb pool pools subnet subnets fip public at got named free lists
          makes) =
      attach_floating_ip-Runs rt.env rt.patterns rt.codec (config_in rt ex s) c lb ex w s.spec []
        fip.floating_ip _ s.reads_spec at
        (rw public (
          obtained-Runs rt.env rt.patterns rt.codec (config_in rt ex s) c lb ex w network_lb pool
            pools subnet subnets fip got named free
            (subnets_of_pool-Runs rt ex s c pool subnet subnets lists) makes))
