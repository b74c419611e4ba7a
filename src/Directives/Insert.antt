-- ===== src/Directives/Insert.antt =====
-- The insertion at build time passes the check at startup.
use zonedns.Prelude.{
  ◌≡◌, ◌≢◌, refl, ap, sym, ◌∙◌, false, none, some, List, [], ◌∷◌, ◌++◌, arith, append-nil, eq_iff,
  All, All-append_right,
}
use zonedns.Text.{Str, str_eq, text}
use zonedns.Directives.{not_registered, check_order, is_listed, weave, insert_before_cache}
use zonedns.Directives.Order.{check_order_accepts, check_order_missing}

weave-front :
    (name : Str) (front rest : List Str)
    → All (λ d. d ≢ text "cache") front
    → weave name (front ++ rest) ≡ front ++ weave name rest
unfolding weave
weave-front name [] rest h = refl
weave-front name (d ∷ front) rest (ne, h) =
    ground (arith, weave-front name front rest h, eq_iff d (text "cache"))

weave_cache :
    (name : Str) (back : List Str)
    → weave name (text "cache" ∷ back) ≡ name ∷ text "cache" ∷ weave name back
unfolding weave
weave_cache name back = ground (arith, eq_iff (text "cache") (text "cache"))

weave_cache_less :
    (name : Str) (ds : List Str) → All (λ d. d ≢ text "cache") ds → weave name ds ≡ ds
weave_cache_less name ds h =
    ap (weave name) (sym (append-nil ds)) ∙ weave-front name ds [] h ∙ unfold weave in append-nil ds

not_listed : (name : Str) (ds : List Str) → All (λ d. d ≢ name) ds → is_listed name ds ≡ false
unfolding is_listed
not_listed name [] h = refl
not_listed name (d ∷ ds) (ne, h) = ground (arith, not_listed name ds h, eq_iff d name)

insert-weave :
    (name : Str) (ds : List Str)
    → All (λ d. d ≢ name) ds
    → insert_before_cache name ds ≡ weave name ds
unfolding insert_before_cache
insert-weave name ds h = rw (not_listed name ds h)

-- Into a list with one cache, and without the plugin, the plugin is inserted right in front of the
-- cache; all else keeps its place, and the check at startup accepts the result.
pub insert_before_cache_accepted :
    (name : Str)
    → name ≢ text "cache"
    → (front back : List Str) → All (λ d. d ≢ text "cache") front
    → All (λ d. d ≢ text "cache") back
    → All (λ d. d ≢ name) (front ++ text "cache" ∷ back)
    → (insert_before_cache name (front ++ text "cache" ∷ back)
        ≡ front ++ name ∷ text "cache" ∷ back)
      × (check_order name (insert_before_cache name (front ++ text "cache" ∷ back)) ≡ none)
insert_before_cache_accepted name ne front back f b h =
    let e : insert_before_cache name (front ++ text "cache" ∷ back)
        ≡ front ++ name ∷ text "cache" ∷ back =
      insert-weave name _ h
      ∙ weave-front name front (text "cache" ∷ back) f
      ∙ ap (λ t. front ++ t) (weave_cache name back)
      ∙ ap (λ t. front ++ name ∷ text "cache" ∷ t) (weave_cache_less name back b) in
    (
      e,
      rw e (
          check_order_accepts name front (text "cache" ∷ back) f
            (All-append_right (λ d. d ≢ name) front (text "cache" ∷ back) h)),
    )

-- Without a cache nothing is inserted, and the check then refuses the build.
pub insert_before_cache_missing :
    (name : Str) (ds : List Str)
    → All (λ d. d ≢ text "cache") ds
    → All (λ d. d ≢ name) ds
    → (insert_before_cache name ds ≡ ds) × (check_order name ds ≡ some not_registered)
insert_before_cache_missing name ds h k =
    (insert-weave name ds k ∙ weave_cache_less name ds h, check_order_missing name ds k)
