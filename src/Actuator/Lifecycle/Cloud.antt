-- ===== src/Actuator/Lifecycle/Cloud.antt =====
-- A cloud in which the Actuator works: what it answers is known in each phase, and what the program
-- writes and what happens at OpenStack lead from phase to phase. The program itself runs in it.
use gardener_extension_priva.Base.{String, ◌≡◌, true, List, [], ◌∷◌, ◌++◌}
use gardener_extension_priva.Fault.{Outcome, returned}
use gardener_extension_priva.OpenStack.{LoadBalancer}
use gardener_extension_priva.Kube.{Extension}
use gardener_extension_priva.World.{Call, writes}
use gardener_extension_priva.Wait.{WaitLaws}
use gardener_extension_priva.LoadBalancer.Runs.{Connected}
use gardener_extension_priva.Actuator.{Runtime, reconcile, delete, restore, migrate}
use gardener_extension_priva.Actuator.Runs.{Settings, config_in}
use gardener_extension_priva.Actuator.Progress.Raising.{raised}
use gardener_extension_priva.Actuator.Progress.Creation.{creation}
use gardener_extension_priva.Actuator.Progress.Situations.{Serving, Failing, Stalled, Vacant}
use gardener_extension_priva.Actuator.Lifecycle.{Pending, Phase, Incident, Event, struck}

-- The surroundings of an Extension in a namespace. What changes by itself is a state: with an
-- incident the state takes in what was written before, and the history of calls starts anew. The
-- Extension is read at each event.
pub record Site (namespace : String) : Type 1 where
  pub State : Type 0
  pub hit : Incident → State → List Call → State
  pub rt : State → Runtime
  pub ex : State → List Call → Extension
  pub named : (st : State) (w : List Call) → (ex st w).namespace ≡ namespace
  pub settings : (st : State) (w : List Call) → Settings (rt st) (ex st w)
  pub laws : (st : State) → WaitLaws (rt st).wait
  pub connected :
      (st : State) (w : List Call)
      → Connected (rt st).env (config_in (rt st) (ex st w) (settings st w))

-- The state, and the calls made since it was entered.
abbrev pub Moment : {namespace : String} → Site namespace → Type 0
Moment site = site.State × List Call

module _ {namespace : String} (site : Site namespace) (st : site.State) (w : List Call) where
  abbrev pub ServingAt : Type 0
  ServingAt =
      Serving (site.rt st) (site.ex st w) (site.settings st w) (site.laws st) (site.connected st w)
        w

  abbrev pub FailingAt : Type 0
  FailingAt =
      Failing (site.rt st) (site.ex st w) (site.settings st w) (site.laws st) (site.connected st w)
        w

  abbrev pub StalledAt : Type 0
  StalledAt =
      Stalled (site.rt st) (site.ex st w) (site.settings st w) (site.laws st) (site.connected st w)
        w

  abbrev pub VacantAt : Type 0
  VacantAt =
      Vacant (site.rt st) (site.ex st w) (site.settings st w) (site.laws st) (site.connected st w) w

  -- the calls that the situations speak of
  abbrev pub removed : LoadBalancer → Call
  removed lb = Call.delete_load_balancer (site.connected st w).compute lb.id true

  abbrev pub kept_up_by : ServingAt → List Call
  kept_up_by v =
      raised (site.rt st) (site.ex st w) (site.settings st w) (site.laws st) (site.connected st w)
        v.raising

  abbrev pub served_by : VacantAt → List Call
  served_by v =
      raised (site.rt st) (site.ex st w) (site.settings st w) (site.laws st) (site.connected st w)
        v.raising

  abbrev pub made : VacantAt → Call
  made v =
      creation (site.rt st) (site.ex st w) (site.settings st w) (site.laws st) (site.connected st w)
        v.lb w v.subnet.id v.flavor.id

-- In each phase the cloud answers as the situation says, and it takes up what is written: what is
-- created or kept serves, and what is deleted is gone.
pub record Cloud {namespace : String} (site : Site namespace) : Type 1 where
  pub phase : site.State → List Call → Phase
  pub strikes :
      (i : Incident) (st : site.State) (w : List Call)
      → phase (site.hit i st w) [] ≡ struck i (phase st w)
  pub serves :
      (st : site.State) (w : List Call)
      → phase st w ≡ Phase.serving
      → (v : ServingAt site st w) × (phase st (kept_up_by site st w v ++ w) ≡ Phase.serving)
        × (phase st (removed site st w v.lb ∷ w) ≡ Phase.vacant)
  pub fails :
      (st : site.State) (w : List Call)
      → phase st w ≡ Phase.failing
      → (v : FailingAt site st w) × (phase st (removed site st w v.lb ∷ w) ≡ Phase.vacant)
  pub stalls :
      (st : site.State) (w : List Call) (p : Pending)
      → phase st w ≡ Phase.stalled p
      → (v : StalledAt site st w) × (v.lb ≡ p.lb)
  pub lacks :
      (st : site.State) (w : List Call)
      → phase st w ≡ Phase.vacant
      → (v : VacantAt site st w) × (phase st (served_by site st w v ++ made site st w v ∷ w)
          ≡ Phase.serving)

-- An event, as the program and the cloud carry it out.
abbrev pub perform :
    {namespace : String} (site : Site namespace)
    → Event
    → Moment site
    → Outcome (Unit {0}) × Moment site
perform site Event.reconciling (st, h) =
    let (o, h') = reconcile (site.rt st) (site.ex st (writes h)) h in (o, (st, h'))
perform site Event.deleting (st, h) =
    let (o, h') = delete (site.rt st) (site.ex st (writes h)) h in (o, (st, h'))
perform site Event.restoring (st, h) =
    let (o, h') = restore (site.rt st) (site.ex st (writes h)) h in (o, (st, h'))
perform site Event.migrating (st, h) =
    let (o, h') = migrate (site.rt st) (site.ex st (writes h)) h in (o, (st, h'))
perform site (Event.happens i) (st, h) = (returned tt, (site.hit i st (writes h), []))

abbrev pub run :
    {namespace : String} (site : Site namespace)
    → List Event
    → Moment site
    → List (Outcome (Unit {0})) × Moment site
run site [] m = ([], m)
run site (e ∷ es) m =
    let (o, m') = perform site e m in let (os, m'') = run site es m' in (o ∷ os, m'')
