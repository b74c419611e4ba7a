-- ===== src/Drift.antt =====
-- internal/drift/drift.go and filter.go: the comparison of VirtualService hosts with pod labels,
-- and which hosts take part.
pub mod Collect
pub mod Command
pub mod Sorting
pub mod Sets
pub mod Judgements
pub mod Verdicts
pub mod Runs
use zonedns.Prelude.{
  ℕ, Bool, true, false, not, ◌&&◌, ◌||◌, Option, none, some, List, [], ◌∷◌, ◌++◌, ◌==◌,
  if◌then◌else◌, nat_eq, ltb, length,
}
use zonedns.Text.{Str, str_eq, text, has_prefix, has_suffix, trim_suffix, contains_byte}
use zonedns.GoMap
use zonedns.GoMap.{Set}

-- The constants; a name that takes part has none of them, the empty string.
pub data SkipReason : Type 0 where
  skip_wildcard skip_gateway_bound skip_short_name skip_cluster_local : SkipReason

unfoldable pub should_skip_host : Str → Str → Option SkipReason
should_skip_host host cluster_domain =
    if has_prefix host (text "*")
    then some skip_wildcard
    else if not (contains_byte host b'.')
    then some skip_short_name
    else if not (cluster_domain == [])
        && has_suffix host (text "." ++ trim_suffix cluster_domain (text "."))
    then some skip_cluster_local
    else none

-- The loop of `ShouldSkipVirtualService`.
names_mesh : List Str → Bool
names_mesh [] = false
names_mesh (g ∷ rest) = if g == text "mesh" then true else names_mesh rest

unfoldable pub should_skip_virtual_service : List Str → Option SkipReason
unfolding names_mesh
should_skip_virtual_service gateways =
    if length gateways == 0
    then none
    else if names_mesh gateways
    then none
    else some skip_gateway_bound

pub record Report : Type 0 where
  pub unclaimed_hosts : List Str
  pub unrouted_labels : List Str

unfoldable pub is_ok : Report → Bool
is_ok r = length r.unclaimed_hosts == 0 && length r.unrouted_labels == 0

-- The order of Go strings, and sort.Strings as insertion.
unfoldable pub str_leb : Str → Str → Bool
str_leb [] t = true
str_leb (c ∷ s) [] = false
str_leb (c ∷ s) (d ∷ t) = if ltb c d then true else if c == d then str_leb s t else false

unfoldable pub insert_sorted : Str → List Str → List Str
insert_sorted s [] = s ∷ []
insert_sorted s (t ∷ rest) =
    let behind = insert_sorted s rest in if str_leb s t then s ∷ t ∷ rest else t ∷ behind

unfoldable pub sort_strings : List Str → List Str
sort_strings [] = []
sort_strings (s ∷ rest) = insert_sorted s (sort_strings rest)

-- The loop of `toSet`.
unfoldable pub add_all : List Str → Set Str → Set Str
add_all [] out = out
add_all (s ∷ rest) out =
    let out' = if s == [] then out else GoMap.insert s tt out in add_all rest out'

unfoldable pub to_set : List Str → Set Str
unfolding add_all
to_set names = add_all names []

-- One of the two loops of `Compare`, over the keys in the order of the list.
unfoldable pub missing_from : Set Str → Set Str → List Str
missing_from other [] = []
missing_from other ((h, _) ∷ rest) =
    let found = missing_from other rest in if not (GoMap.has h other) then h ∷ found else found

unfoldable pub compare : List Str → List Str → Report
unfolding to_set missing_from sort_strings
compare virtual_service_hosts pod_label_hosts =
    let in_vs = to_set virtual_service_hosts in
    let in_label = to_set pod_label_hosts in
    record {
      unclaimed_hosts = sort_strings (missing_from in_label in_vs);
      unrouted_labels = sort_strings (missing_from in_vs in_label);
    }
