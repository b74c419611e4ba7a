-- ===== src/Drift/Collect.antt =====
-- internal/drift/collect.go and cmd/zonedns-drift/main.go: collecting the names, and the run of the
-- command from there on. The answers of the Kubernetes API are parameters.
use zonedns.Prelude.{
  ℕ, Bool, ◌&&◌, Option, none, some, List, [], ◌∷◌, ◌++◌, map, ltb, length, if◌then◌else◌, Result,
  ok, err,
}
use zonedns.Text.{Str, text}
use zonedns.Drift.{
  SkipReason, should_skip_host, should_skip_virtual_service, Report, is_ok, compare,
}

pub record Skipped : Type 0 where
  pub source : Str
  pub host : Str
  pub reason : SkipReason

-- What is read of a VirtualService; a field is none if it is no list of strings, and [] if missing.
pub record VirtualService : Type 0 where
  pub namespace : Str
  pub name : Str
  pub gateways : Option (List Str)
  pub hosts : Option (List Str)

pub data DriftError : Type 0 where
  bad_field : (source : Str) → DriftError
  list_failed no_version pods_failed : DriftError

-- hosts and skipped, so far
pub record Collected : Type 0 where
  pub hosts : List Str
  pub skipped : List Skipped

abbrev pub source_of : VirtualService → Str
source_of vs = vs.namespace ++ text "/" ++ vs.name

-- The loop over the hosts of a VirtualService that is skipped.
unfoldable pub skip_all : Str → SkipReason → List Str → Collected → Collected
skip_all source reason [] c = c
skip_all source reason (h ∷ rest) c =
    skip_all source reason rest (record c {
      skipped = c.skipped ++ record { source = source; host = h; reason = reason } ∷ [];
    })

-- The loop over the hosts of one that is not.
unfoldable pub take_hosts : Str → Str → List Str → Collected → Collected
take_hosts cluster_domain source [] c = c
take_hosts cluster_domain source (h ∷ rest) c =
    take_hosts cluster_domain source rest (elim (should_skip_host h cluster_domain) [
      | some reason ↦ record c {
        skipped = c.skipped ++ record { source = source; host = h; reason = reason } ∷ [];
      }
      | none ↦ record c { hosts = c.hosts ++ h ∷ [] }
    ])

-- One VirtualService whose fields were read.
unfoldable pub collect_one : Str → Str → List Str → List Str → Collected → Collected
unfolding skip_all take_hosts
collect_one cluster_domain source gateways hosts c = elim (should_skip_virtual_service gateways) [
  | some reason ↦ skip_all source reason hosts c
  | none ↦ take_hosts cluster_domain source hosts c
]

-- The loop of `CollectVirtualServiceHosts`.
unfoldable pub collect_from : Str → List VirtualService → Collected → Result DriftError Collected
unfolding collect_one
collect_from cluster_domain [] c = ok c
collect_from cluster_domain (vs ∷ rest) c = elim vs.gateways [
  | none ↦ err (bad_field (source_of vs))
  | some gateways ↦ elim vs.hosts [
    | none ↦ err (bad_field (source_of vs))
    | some hosts ↦
        collect_from cluster_domain rest
          (collect_one cluster_domain (source_of vs) gateways hosts c)
  ]
]

-- What listing one API version returns.
pub data Listing : Type 0 where
  listed : List VirtualService → Listing
  not_found failed : Listing

-- Over the listings of the versions in order.
unfoldable pub list_virtual_services : List Listing → Result DriftError (List VirtualService)
list_virtual_services [] = err no_version
list_virtual_services (listed items ∷ rest) = ok items
list_virtual_services (not_found ∷ rest) = list_virtual_services rest
list_virtual_services (failed ∷ rest) = err list_failed

unfoldable pub collect_virtual_service_hosts : Str → List Listing → Result DriftError Collected
unfolding list_virtual_services collect_from
collect_virtual_service_hosts cluster_domain listings = elim (list_virtual_services listings) [
  | err e ↦ err e
  | ok items ↦ collect_from cluster_domain items (record { hosts = []; skipped = [] })
]

-- The host labels of the pods that carry one; none where listing them fails.
unfoldable pub collect_pod_hosts : Option (List Str) → Result DriftError (List Str)
collect_pod_hosts none = err pods_failed
collect_pod_hosts (some labels) = ok labels

-- The lines of the report, with what they depend on.
pub data Line : Type 0 where
  excluded_title unclaimed_title unrouted_title : ℕ → Line
  excluded : Skipped → Line
  unclaimed unrouted : Str → Line
  unclaimed_note unrouted_note no_drift blank names_only : Line

abbrev pub exit_clean : ℕ
exit_clean = 0

abbrev pub exit_drift : ℕ
exit_drift = 1

abbrev pub exit_failed : ℕ
exit_failed = 2

abbrev pub titled : Line → List Line → List Line → List Line
titled title [] after = []
titled title (l ∷ ls) after = title ∷ (l ∷ ls) ++ after

-- What is printed, and the exit code.
unfoldable pub print_report : Report → List Skipped → Bool → List Line × ℕ
print_report report skipped show_skipped =
    let shown =
      if show_skipped && ltb 0 (length skipped)
      then titled (excluded_title (length skipped)) (map excluded skipped) (blank ∷ [])
      else [] in
    if is_ok report then (shown ++ no_drift ∷ [], exit_clean) else (
      shown
          ++ titled (unclaimed_title (length report.unclaimed_hosts))
              (map unclaimed report.unclaimed_hosts) (unclaimed_note ∷ blank ∷ [])
          ++ titled (unrouted_title (length report.unrouted_labels))
              (map unrouted report.unrouted_labels) (unrouted_note ∷ blank ∷ [])
          ++ names_only ∷ [],
      exit_drift,
    )

-- `run` once the clients are built, with the exit code of `main`.
unfoldable pub run : Str → Bool → List Listing → Option (List Str) → List Line × ℕ
unfolding collect_virtual_service_hosts collect_pod_hosts print_report
run cluster_domain show_skipped listings pods =
    elim (collect_virtual_service_hosts cluster_domain listings) [
      | err _ ↦ ([], exit_failed)
      | ok c ↦ elim (collect_pod_hosts pods) [
        | err _ ↦ ([], exit_failed)
        | ok labels ↦ print_report (compare c.hosts labels) c.skipped show_skipped
      ]
    ]
