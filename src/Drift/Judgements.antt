-- ===== src/Drift/Judgements.antt =====
-- The verdict on every host of every VirtualService, and the loops of the collection.
use zonedns.Prelude.{
  ◌≡◌, refl, sym, ◌∙◌, inl, inr, Option, none, some, List, [], ◌∷◌, ◌++◌, map, append_assoc,
  append-nil, arith, Option-cases, nat_eq,
}
use zonedns.Text.{Str, str_eq}
use zonedns.Drift.{SkipReason, should_skip_host, should_skip_virtual_service}
use zonedns.Drift.Collect.{
  Skipped, VirtualService, Collected, source_of, skip_all, take_hosts, collect_one,
}

-- A host of a VirtualService, with the reason that keeps it out of the comparison.
pub record Judged : Type 0 where
  pub source : Str
  pub host : Str
  pub reason : Option SkipReason

unfoldable pub compared : List Judged → List Str
compared [] = []
compared (j ∷ js) = elim j.reason [ none ↦ j.host ∷ compared js | some _ ↦ compared js ]

unfoldable pub excluded_of : List Judged → List Skipped
excluded_of [] = []
excluded_of (j ∷ js) = elim j.reason [
  | none ↦ excluded_of js
  | some r ↦ record { source = j.source; host = j.host; reason = r } ∷ excluded_of js
]

-- The reason is that of the whole VirtualService, or else that of the host.
abbrev verdict : Str → List Str → Str → Option SkipReason
verdict cluster_domain gateways h = elim (should_skip_virtual_service gateways) [
  | some r ↦ some r
  | none ↦ should_skip_host h cluster_domain
]

abbrev pub judge : Str → Str → List Str → Str → Judged
judge cluster_domain source gateways h = record {
  source = source;
  host = h;
  reason = verdict cluster_domain gateways h;
}

-- All hosts of all VirtualServices in order; none if a field cannot be read.
unfoldable pub judged : Str → List VirtualService → Option (List Judged)
judged cluster_domain [] = some []
judged cluster_domain (vs ∷ rest) = elim (judged cluster_domain rest) [
  | none ↦ none
  | some js ↦ elim vs.gateways [
    | none ↦ none
    | some gateways ↦ elim vs.hosts [
      | none ↦ none
      | some hosts ↦ some (map (judge cluster_domain (source_of vs) gateways) hosts ++ js)
    ]
  ]
]

unfoldable pub put : Collected → List Judged → Collected
put c js = record { hosts = c.hosts ++ compared js; skipped = c.skipped ++ excluded_of js }

compared-append : (is js : List Judged) → compared (is ++ js) ≡ compared is ++ compared js
unfolding compared
compared-append [] js = refl
compared-append (i ∷ is) js = ground (arith, compared-append is js)

excluded_of-append :
    (is js : List Judged) → excluded_of (is ++ js) ≡ excluded_of is ++ excluded_of js
unfolding excluded_of
excluded_of-append [] js = refl
excluded_of-append (i ∷ is) js = ground (arith, excluded_of-append is js)

pub put-append : (c : Collected) (is js : List Judged) → put c (is ++ js) ≡ put (put c is) js
unfolding put
put-append c is js = rw (
  compared-append,
  excluded_of-append,
  ← append_assoc c.hosts (compared is) (compared js),
  ← append_assoc c.skipped (excluded_of is) (excluded_of js),
)

pub put-nil : (c : Collected) → put c [] ≡ c
unfolding put compared excluded_of
put-nil c = rw (append-nil c.hosts, append-nil c.skipped)

exclude : Collected → Str → Str → SkipReason → Collected
exclude c source h r = record c {
  skipped = c.skipped ++ record { source = source; host = h; reason = r } ∷ [];
}

module _ (cluster_domain source : Str) (gateways : List Str) (c : Collected) (h : Str) where
  put_excluded :
      (r : SkipReason)
      → verdict cluster_domain gateways h ≡ some r
      → exclude c source h r ≡ put c (judge cluster_domain source gateways h ∷ [])
  unfolding put compared excluded_of exclude
  put_excluded r e = rw (e, append-nil c.hosts)

  put_compared :
      verdict cluster_domain gateways h ≡ none
      → record c { hosts = c.hosts ++ h ∷ [] } ≡ put c (judge cluster_domain source gateways h ∷ [])
  unfolding put compared excluded_of
  put_compared e = rw (e, append-nil c.skipped)

module _ (cluster_domain source : Str) (gateways : List Str) where
  joined :
      (h : Str) (rest : List Str) (c : Collected)
      → put
          (put c (judge cluster_domain source gateways h ∷ []))
          (map (judge cluster_domain source gateways) rest)
        ≡ put c (map (judge cluster_domain source gateways) (h ∷ rest))
  joined h rest c = sym (
      put-append c (judge cluster_domain source gateways h ∷ [])
        (map (judge cluster_domain source gateways) rest))

  skip_all-put :
      (r : SkipReason) (hosts : List Str) (c : Collected)
      → should_skip_virtual_service gateways ≡ some r
      → skip_all source r hosts c ≡ put c (map (judge cluster_domain source gateways) hosts)
  unfolding skip_all exclude
  skip_all-put r [] c e = sym (put-nil c)
  skip_all-put r (h ∷ rest) c e =
      skip_all-put r rest (exclude c source h r) e
      ∙ rw (put_excluded cluster_domain source gateways c h r (ground (arith, e))) (joined h rest c)

  take_hosts-put :
      (hosts : List Str) (c : Collected)
      → should_skip_virtual_service gateways ≡ none
      → take_hosts cluster_domain source hosts c
        ≡ put c (map (judge cluster_domain source gateways) hosts)
  unfolding take_hosts exclude
  take_hosts-put [] c e = sym (put-nil c)
  take_hosts-put (h ∷ rest) c e = elim (Option-cases (should_skip_host h cluster_domain)) [
    | inl n ↦
        rw (n, take_hosts)
          (take_hosts-put rest (record c { hosts = c.hosts ++ h ∷ [] }) e
            ∙ rw (put_compared cluster_domain source gateways c h (ground (arith, e, n)))
                (joined h rest c))
    | inr (r, n) ↦
        rw (n, take_hosts)
          (take_hosts-put rest (exclude c source h r) e
            ∙ rw (put_excluded cluster_domain source gateways c h r (ground (arith, e, n)))
                (joined h rest c))
  ]

  pub collect_one-put :
      (hosts : List Str) (c : Collected)
      → collect_one cluster_domain source gateways hosts c
        ≡ put c (map (judge cluster_domain source gateways) hosts)
  unfolding collect_one
  collect_one-put hosts c = elim (Option-cases (should_skip_virtual_service gateways)) [
    | inl e ↦ rw (e, collect_one) (take_hosts-put hosts c e)
    | inr (r, e) ↦ rw (e, collect_one) (skip_all-put r hosts c e)
  ]
