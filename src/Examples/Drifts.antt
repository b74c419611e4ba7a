-- ===== src/Examples/Drifts.antt =====
-- A drift report, and an exchange.
use zonedns.Prelude.{◌≡◌, refl, some, List, [], ◌∷◌, ok}
use zonedns.Text.{Str, str_beq, text}
use zonedns.Drift.{compare, skip_wildcard}
use zonedns.Drift.Collect.{
  VirtualService, Collected, Listing, listed, not_found, collect_virtual_service_hosts,
}
use zonedns.Drift.Verdicts.{IsCollected, collected_iff}

abbrev service : VirtualService
service = record {
  namespace = text "default";
  name = text "web";
  gateways = some [];
  hosts = some (text "*.test" ∷ text "web.test" ∷ []);
}

abbrev listings : List Listing
listings = not_found ∷ listed (service ∷ []) ∷ []

abbrev collected : Collected
collected = record {
  hosts = text "web.test" ∷ [];
  skipped =
      record { source = text "default/web"; host = text "*.test"; reason = skip_wildcard } ∷ [];
}

collects : collect_virtual_service_hosts (text "cluster.local") listings ≡ ok collected
unfolding collect_virtual_service_hosts zonedns.Drift.should_skip_virtual_service
    zonedns.Drift.should_skip_host zonedns.Text.has_prefix zonedns.Text.contains_byte str_beq
    zonedns.Text.has_suffix zonedns.Text.trim_suffix
collects = refl

collected_iff_example : IsCollected (text "cluster.local") listings collected
collected_iff_example = (collected_iff (text "cluster.local") listings collected).0 collects
