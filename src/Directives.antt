-- ===== src/Directives.antt =====
-- The order of CoreDNS directives: the check at startup of both plugins (CheckDirectiveOrder in
-- plugin/zonedns/setup.go and plugin/zonedns_agent/setup.go), and the insertion at build time of
-- build/zonedns_register.go.
pub mod Order
pub mod Insert
use zonedns.Prelude.{
  ℕ, ◌+◌, Bool, true, false, ◌&&◌, Option, none, some, List, [], ◌∷◌, ltb, ◌==◌, if◌then◌else◌,
}
use zonedns.Text.{Str, str_eq, text}

-- The two indices of the loop, none for -1.
pub record Places : Type 0 where
  pub plugin_at : Option ℕ
  pub cache_at : Option ℕ

pub data OrderError : Type 0 where
  not_registered : OrderError
  after_cache : (cache_at plugin_at : ℕ) → OrderError

-- One round of the loop, for the plugin of that name.
unfoldable pub place : Str → ℕ → Str → Places → Places
place name i d p =
    if d == name
    then record p { plugin_at = some i }
    else if d == text "cache"
    then record p { cache_at = some i }
    else p

unfoldable pub scan : Str → ℕ → Places → List Str → Places
unfolding place
scan name i p [] = p
scan name i p (d ∷ rest) = scan name (i + 1) (place name i d p) rest

-- What is returned after the loop; none is nil.
unfoldable pub judge : Places → Option OrderError
judge p = elim p.plugin_at [
  | none ↦ some not_registered
  | some at ↦ elim p.cache_at [
    | none ↦ none
    | some cache ↦ if ltb cache at then some (after_cache cache at) else none
  ]
]

unfoldable pub check_order : Str → List Str → Option OrderError
unfolding scan judge
check_order name directives =
    judge (scan name 0 (record { plugin_at = none; cache_at = none }) directives)

-- CheckDirectiveOrder of the central plugin
unfoldable pub check_central : List Str → Option OrderError
unfolding check_order
check_central directives = check_order (text "zonedns") directives

-- CheckDirectiveOrder of the agent
unfoldable pub check_agent : List Str → Option OrderError
unfolding check_order
check_agent directives = check_order (text "zonedns_agent") directives

-- The first loop of `insertBeforeCache`.
is_listed : Str → List Str → Bool
is_listed name [] = false
is_listed name (d ∷ rest) = if d == name then true else is_listed name rest

-- The second loop.
weave : Str → List Str → List Str
weave name [] = []
weave name (d ∷ rest) =
    let out = weave name rest in if d == text "cache" then name ∷ d ∷ out else d ∷ out

unfoldable pub insert_before_cache : Str → List Str → List Str
unfolding is_listed weave
insert_before_cache name directives =
    if is_listed name directives then directives else weave name directives
