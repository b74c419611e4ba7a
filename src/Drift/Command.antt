-- ===== src/Drift/Command.antt =====
-- cmd/zonedns-drift/main.go from the flags on: loadConfig, the clients, run, and the exit code of
-- main; with VirtualServiceGVRs and stringSlice of internal/drift/collect.go.
pub mod Codes
use zonedns.Prelude.{ℕ, Bool, Option, none, some, List, [], ◌∷◌, map, ◌==◌, if◌then◌else◌}
use zonedns.Text.{Str, str_eq, text}
use zonedns.GoMap
use zonedns.GoMap.{Map}
use zonedns.Kube.{Kube}
use zonedns.Drift.Collect.{
  VirtualService, Listing, listed, not_found, failed, Line, exit_failed, run,
}

-- A nested field of an unstructured object.
pub data Field : Type 0 where
  missing not_strings : Field
  strings : List Str → Field

-- none is the error.
abbrev pub string_slice : Field → Option (List Str)
string_slice not_strings = none
string_slice missing = some []
string_slice (strings out) = some out

pub record Unstructured : Type 0 where
  pub namespace : Str
  pub name : Str
  pub spec_gateways : Field
  pub spec_hosts : Field

abbrev pub read_service : Unstructured → VirtualService
read_service vs = record {
  namespace = vs.namespace;
  name = vs.name;
  gateways = string_slice vs.spec_gateways;
  hosts = string_slice vs.spec_hosts;
}

pub record GroupVersionResource : Type 0 where
  pub group : Str
  pub version : Str
  pub resource : Str

abbrev pub virtual_service_gvrs : List GroupVersionResource
virtual_service_gvrs =
    record {
      group = text "networking.istio.io";
      version = text "v1";
      resource = text "virtualservices";
    }
    ∷ record {
      group = text "networking.istio.io";
      version = text "v1beta1";
      resource = text "virtualservices";
    }
    ∷ []

-- The answer to a List of a resource.
pub data Answer : Type 0 where
  items : List Unstructured → Answer
  is_not_found is_error : Answer

abbrev pub read_answer : Answer → Listing
read_answer (items services) = listed (map read_service services)
read_answer is_not_found = not_found
read_answer is_error = failed

-- What the API server answers the clients: the objects of a resource in a namespace, and the labels
-- of the pods that carry a label, none for an error.
pub record Cluster (kube : Kube) : Type 0 where
  pub list : kube.Dynamic → GroupVersionResource → Str → Answer
  pub list_pods : kube.Clientset → Str → Str → Option (List (Map Str Str))

-- The value of a label, "" for none.
abbrev pub label_value : Str → Map Str Str → Str
label_value host_label labels = elim (GoMap.lookup host_label labels) [ none ↦ [] | some v ↦ v ]

abbrev pub host_labels : Str → Option (List (Map Str Str)) → Option (List Str)
host_labels host_label none = none
host_labels host_label (some pods) = some (map (label_value host_label) pods)

-- The flags.
pub record Flags : Type 0 where
  pub kubeconfig : Str
  pub cluster_domain : Str
  pub host_label : Str
  pub show_skipped : Bool
  pub namespace : Str

module _ (kube : Kube) where
  -- none is an error.
  unfoldable pub load_config : Str → Option kube.RestConfig
  load_config kubeconfig =
      let in_cluster = if kubeconfig == [] then kube.in_cluster_config else none in
      elim in_cluster [ some config ↦ some config | none ↦ kube.client_config kubeconfig ]

  module _ (cluster : Cluster kube) (flags : Flags) where
    abbrev pub listings : kube.Dynamic → List Listing
    listings dyn =
        map (λ gvr. read_answer (cluster.list dyn gvr flags.namespace)) virtual_service_gvrs

    abbrev pub pod_hosts : kube.Clientset → Option (List Str)
    pod_hosts typed =
        host_labels flags.host_label (cluster.list_pods typed flags.host_label flags.namespace)

    -- What is printed, and the exit code.
    unfoldable pub command : List Line × ℕ
    unfolding load_config
    command = elim (load_config flags.kubeconfig) [
      | none ↦ ([], exit_failed)
      | some config ↦ elim (kube.new_clientset config) [
        | none ↦ ([], exit_failed)
        | some typed ↦ elim (kube.new_dynamic config) [
          | none ↦ ([], exit_failed)
          | some dyn ↦ run flags.cluster_domain flags.show_skipped (listings dyn) (pod_hosts typed)
        ]
      ]
    ]
