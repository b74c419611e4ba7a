-- ===== src/Drift/Verdicts.antt =====
-- What becomes of every host of every VirtualService.
use zonedns.Prelude.{
  ◌+◌, ◌≡◌, ◌↔◌, refl, ap, sym, ◌∙◌, inl, inr, some, List, [], ◌∷◌, ◌++◌, map, arith, length,
  Option-cases, Result, ok, err, nat_eq,
}
use zonedns.Text.{Str, str_eq}
use zonedns.Drift.Collect.{
  VirtualService, Collected, source_of, collect_from, Listing, collect_virtual_service_hosts,
  list_virtual_services,
}
use zonedns.Drift.Judgements.{
  Judged, compared, excluded_of, judge, judged, put, put-append, put-nil, collect_one-put,
}

module _ (cluster_domain : Str) where
  collect_sound :
      (items : List VirtualService) (c out : Collected)
      → collect_from cluster_domain items c ≡ ok out
      → (js : List Judged) × (judged cluster_domain items ≡ some js) × (out ≡ put c js)
  unfolding collect_from judged
  collect_sound [] c out h = ([], refl, ground (arith, put-nil c))
  collect_sound (vs ∷ rest) c out h = elim (Option-cases vs.gateways) [
    | inl e ↦ ground (arith, e)
    | inr (gateways, e) ↦ elim (Option-cases vs.hosts) [
      | inl f ↦ ground (arith, e, f)
      | inr (hosts, f) ↦
          let is = map (judge cluster_domain (source_of vs) gateways) hosts in
          let k : collect_from cluster_domain rest (put c is) ≡ ok out =
            rw (← collect_one-put cluster_domain (source_of vs) gateways hosts c)
              (ground (arith, e, f)) in
          let (js, j, o) = collect_sound rest (put c is) out k in
          (is ++ js, ground (arith, e, f, j), o ∙ sym (put-append c is js))
    ]
  ]

  collect_complete :
      (items : List VirtualService) (c : Collected) (js : List Judged)
      → judged cluster_domain items ≡ some js
      → collect_from cluster_domain items c ≡ ok (put c js)
  unfolding collect_from judged
  collect_complete [] c js h = ground (arith, put-nil c)
  collect_complete (vs ∷ rest) c js h = elim (Option-cases (judged cluster_domain rest)) [
    | inl n ↦ ground (arith, n)
    | inr (ks, n) ↦ elim (Option-cases vs.gateways) [
      | inl e ↦ ground (arith, n, e)
      | inr (gateways, e) ↦ elim (Option-cases vs.hosts) [
        | inl f ↦ ground (arith, n, e, f)
        | inr (hosts, f) ↦
            let is = map (judge cluster_domain (source_of vs) gateways) hosts in
            let whole : is ++ ks ≡ js = ground (arith, n, e, f) in
            rw (e, f, collect_from)
              (rw
                (
                  collect_one-put cluster_domain (source_of vs) gateways hosts c,
                  ← whole,
                  put-append c is ks,
                )
                (collect_complete rest (put c is) ks n))
      ]
    ]
  ]

length-put : (js : List Judged) → length (compared js) + length (excluded_of js) ≡ length js
unfolding compared excluded_of
length-put [] = refl
length-put (j ∷ js) = ground (arith, length-put js)

-- The hosts of the first API version that is served, each with its verdict.
pub record IsCollected (cluster_domain : Str) (listings : List Listing) (out : Collected)
    : Type 0 where
  pub items : List VirtualService
  pub first : list_virtual_services listings ≡ ok items
  pub verdicts : List Judged
  pub each : judged cluster_domain items ≡ some verdicts
  pub hosts : out.hosts ≡ compared verdicts
  pub skipped : out.skipped ≡ excluded_of verdicts
  pub none_lost : length out.hosts + length out.skipped ≡ length verdicts

-- The collection succeeds exactly if an API version is served and all fields can be read. Every
-- host is then either compared or reported as skipped with its reason, in the order of the
-- cluster, and the two lists together have as many entries as there are hosts.
pub collected_iff :
    (cluster_domain : Str) (listings : List Listing) (out : Collected)
    → (collect_virtual_service_hosts cluster_domain listings ≡ ok out)
      ↔ IsCollected cluster_domain listings out
unfolding collect_virtual_service_hosts put
collected_iff cluster_domain listings out = (
  to (list_virtual_services listings) refl,
  λ k.
      rw (k.first, collect_virtual_service_hosts)
        (collect_complete cluster_domain k.items (record { hosts = []; skipped = [] }) k.verdicts
            k.each
          ∙ rw (← k.hosts, ← k.skipped)),
)
  where
    to :
        (items : Result _ (List VirtualService))
        → list_virtual_services listings ≡ items
        → collect_virtual_service_hosts cluster_domain listings ≡ ok out
        → IsCollected cluster_domain listings out
    to (err e) q h = ground (arith, q)
    to (ok items) q h =
        let (js, j, o) =
          collect_sound cluster_domain items (record { hosts = []; skipped = [] }) out
            (rw (q, collect_virtual_service_hosts) at h) in
        record {
          items = items;
          first = q;
          verdicts = js;
          each = j;
          hosts = ap (λ (c : Collected). c.hosts) o;
          skipped = ap (λ (c : Collected). c.skipped) o;
          none_lost = ap (λ (c : Collected). length c.hosts + length c.skipped) o ∙ length-put js;
        }
