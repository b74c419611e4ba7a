-- ===== src/Examples/Clusters.antt =====
-- The Workload API, gRPC and Kubernetes, where every call succeeds.
use zonedns.Prelude.{some}
use zonedns.Text.{Str}
use zonedns.Resources.{Spiffe}
use zonedns.Kube.{Kube}
use zonedns.Startup.{Grpc}

-- An ID is its text, a source its address.
abbrev pub workload : Spiffe
workload = record {
  SpiffeId = Str;
  Source = Str;
  from_string = λ s. some s;
  new_x509_source = λ addr within. some addr;
}

-- A connection is its target.
abbrev pub grpc : Grpc workload
grpc = record { Conn = Str; new_client = λ target credentials. some target }

abbrev pub kube : Kube
kube = record {
  RestConfig = Unit;
  Clientset = Unit;
  Dynamic = Unit;
  in_cluster_config = some tt;
  client_config = λ path. some tt;
  new_clientset = λ config. some tt;
  new_dynamic = λ config. some tt;
}
