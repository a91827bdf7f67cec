-- ===== src/Kube.antt =====
-- The Kubernetes and Gardener objects that the controllers read and write, with the fields used.
use gardener_extension_priva.Base.{String, List, Option}

-- runtime.RawExtension; a `nil` slice of bytes is `none`
pub record RawExtension : Type 0 where
  pub raw : Option String

-- extensionsv1alpha1.Extension: `Spec.ProviderConfig` and `Status.State` are pointers
pub record Extension : Type 0 where
  pub name : String
  pub namespace : String
  pub provider_config : Option RawExtension
  pub state : Option RawExtension

-- gardencorev1beta1.Shoot, with `Spec.Provider.InfrastructureConfig`
pub record Shoot : Type 0 where
  pub name : String
  pub infrastructure_config : Option RawExtension

pub record Seed : Type 0 where
  pub name : String

-- controller.Cluster
pub record Cluster : Type 0 where
  pub name : String
  pub seed : Option Seed
  pub shoot : Option Shoot

pub record Infrastructure : Type 0 where
  pub name : String
  pub namespace : String

-- v1.Service: `selector` is the value of `Spec.Selector["app"]`, "" where there is none, and
-- `ingress` the addresses of `Status.LoadBalancer.Ingress`
pub record Service : Type 0 where
  pub service_type : String
  pub app_selector : String
  pub ingress : List String

-- v1.Secret: `cloud_conf` is the value of `Data["cloud.conf"]`
pub record Secret : Type 0 where
  pub cloud_conf : Option String
