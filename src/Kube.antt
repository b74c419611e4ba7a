-- ===== src/Kube.antt =====
-- What plugin/zonedns_agent/setup.go and cmd/zonedns-drift/main.go call of client-go to build their
-- clients; none is an error.
use zonedns.Prelude.{Option}
use zonedns.Text.{Str}

-- rest.InClusterConfig, the deferred loading of clientcmd with an explicit path ([] for none),
-- kubernetes.NewForConfig and dynamic.NewForConfig
pub record Kube : Type 1 where
  pub RestConfig : Type 0
  pub Clientset : Type 0
  pub Dynamic : Type 0
  pub in_cluster_config : Option RestConfig
  pub client_config : Str → Option RestConfig
  pub new_clientset : RestConfig → Option Clientset
  pub new_dynamic : RestConfig → Option Dynamic
