-- ===== src/Registry/Poller/Paging.antt =====
-- The loop of `PollOnce` against the pages that SPIRE has to give.
use zonedns.Prelude.{
  ℕ, zero, suc, ◌+◌, ◌<◌, ◌≡◌, ◌≢◌, ◌↔◌, refl, sym, ◌∙◌, inl, inr, true, false, List, [], ◌∷◌, ◌++◌,
  arith, Result, ok, err, eq_iff, All, length, append_assoc, Bool-cases,
}
use zonedns.Text.{Str, str_eq}
use zonedns.GoMap
use zonedns.GoMap.{Set}
use zonedns.GoMap.Laws.{has-insert}
use zonedns.Registry.{Entry}
use zonedns.Registry.Poller.{PollError, Lister, max_poll_pages, poll_pages}
use zonedns.Registry.Poller.Pages.{
  Pages, last, more, Distinct, is_fresh, after, IsOpen, poll_pages_stale, poll_pages_failed,
  poll_pages_last, poll_pages_more, poll_pages_complete, tokens-nonempty,
}

unseen_before :
    (token u : Str) (seen : Set Str)
    → u ≢ []
    → GoMap.has u (after token seen) ≡ false
    → (u ≢ token) × (GoMap.has u seen ≡ false)
unseen_before token u seen ne h = (
  ground (arith, has-insert token u tt seen, eq_iff token u, eq_iff token []),
  ground (arith, has-insert token u tt seen, eq_iff token u),
)

unseen_before-All :
    (token next : Str) (seen : Set Str) (tokens : List Str)
    → All (λ u. u ≢ []) tokens
    → All (λ u. (u ≢ next) × (GoMap.has u (after token seen) ≡ false)) tokens
    → All (λ u. (u ≢ token) × (GoMap.has u seen ≡ false)) tokens × All (λ u. u ≢ next) tokens
unseen_before-All token next seen [] ne h = (tt, tt)
unseen_before-All token next seen (u ∷ us) (ne, nes) ((other, unseen), h) =
    let (k, d) = unseen_before-All token next seen us nes h in
    ((unseen_before token u seen ne unseen, k), (other, d))

IsOpen-before :
    {seen : Set Str} {token next : Str} {tokens : List Str}
    → is_fresh token seen ≡ true
    → next ≢ []
    → All (λ u. u ≢ []) tokens
    → IsOpen (after token seen) next tokens
    → IsOpen seen token (next ∷ tokens)
IsOpen-before {seen} {token} {next} {tokens} fresh ne nes k =
    let (later, distinct) = unseen_before-All token next seen tokens nes k.later in
    let unseen : GoMap.has next (after token seen) ≡ false =
      ground (arith, k.now, eq_iff next []) in
    record {
      now = fresh;
      later = (unseen_before token next seen ne unseen, later);
      distinct = (distinct, k.distinct);
    }

-- A successful loop, from the values of its variables.
record IsPaged (lister : Lister) (left n : ℕ) (token : Str) (seen : Set Str)
    (all result : List Entry) : Type 0 where
  tokens : List Str
  rest : List Entry
  pages : Pages lister n token tokens rest
  joined : result ≡ all ++ rest
  few : length tokens < left
  fresh : IsOpen seen token tokens

module _ (lister : Lister) (left n : ℕ) (token : Str) (seen : Set Str) (all result : List Entry)
    (fresh : is_fresh token seen ≡ true)
    (ih : (next : Str) (sofar : List Entry)
      → poll_pages lister left (n + 1) next (after token seen) sofar ≡ ok result
      → IsPaged lister left (n + 1) next (after token seen) sofar result)
    (h : poll_pages lister (suc left) n token seen all ≡ ok result) where
  IsPaged-more :
      (page : List Entry) (next : Str)
      → lister n token ≡ ok (page, next)
      → next ≢ []
      → IsPaged lister (suc left) n token seen all result
  IsPaged-more page next e ne =
      let k =
        ih next (all ++ page)
          (sym (poll_pages_more lister left n token seen all page next fresh e ne) ∙ h) in
      record {
        tokens = next ∷ k.tokens;
        rest = page ++ k.rest;
        pages = more page k.rest e ne k.pages refl;
        joined = k.joined ∙ append_assoc all page k.rest;
        few = omega (arith, k.few);
        fresh = IsOpen-before fresh ne (tokens-nonempty lister k.pages) k.fresh;
      }

  IsPaged-fetch :
      (r : Result PollError (List Entry × Str))
      → lister n token ≡ r
      → IsPaged lister (suc left) n token seen all result
  IsPaged-fetch (err e) q = cc (h, poll_pages_failed lister left n token seen all e fresh q)
  IsPaged-fetch (ok (page, [])) q = record {
    tokens = [];
    rest = page;
    pages = last q;
    joined = cc (h, poll_pages_last lister left n token seen all page fresh q);
    few = omega arith;
    fresh = record { now = fresh; later = tt; distinct = tt };
  }
  IsPaged-fetch (ok (page, c ∷ next)) q = IsPaged-more page (c ∷ next) q (cc)

poll_pages_sound :
    (lister : Lister) (left n : ℕ) (token : Str) (seen : Set Str) (all result : List Entry)
    → poll_pages lister left n token seen all ≡ ok result
    → IsPaged lister left n token seen all result
poll_pages_sound lister zero n token seen all result h = unfold poll_pages in cc
poll_pages_sound lister (suc left) n token seen all result h =
    elim (Bool-cases (is_fresh token seen)) [
      | inl fresh ↦
          IsPaged-fetch lister left n token seen all result fresh
            (λ next sofar.
              poll_pages_sound lister left (n + 1) next (after token seen) sofar result)
            h (lister n token) refl
      | inr stale ↦ cc (h, poll_pages_stale lister left n token seen all stale)
    ]

-- A poll that has all the pages: fewer than `max_poll_pages` further ones, and no token twice.
pub record IsComplete (lister : Lister) (all : List Entry) : Type 0 where
  pub tokens : List Str
  pub pages : Pages lister 0 [] tokens all
  pub few : length tokens < max_poll_pages
  pub distinct : Distinct tokens

nothing_seen :
    (tokens : List Str)
    → All (λ u. u ≢ []) tokens
    → All (λ u. (u ≢ []) × (GoMap.has {V = Unit {0}} u [] ≡ false)) tokens
unfolding GoMap.has GoMap.lookup
nothing_seen [] h = tt
nothing_seen (u ∷ us) (ne, h) = ((ne, refl), nothing_seen us h)

IsOpen-first :
    (tokens : List Str) → All (λ u. u ≢ []) tokens → Distinct tokens → IsOpen [] [] tokens
IsOpen-first tokens ne d = record {
  now = ground (arith, eq_iff {T = Str} [] []);
  later = nothing_seen tokens ne;
  distinct = d;
}

pub first_pages_iff :
    (lister : Lister) (all : List Entry)
    → (poll_pages lister max_poll_pages 0 [] [] [] ≡ ok all) ↔ IsComplete lister all
first_pages_iff lister all = (
  λ h.
      let k = poll_pages_sound lister max_poll_pages 0 [] [] [] all h in
      record {
        tokens = k.tokens;
        pages = rw (← k.joined) at k.pages;
        few = k.few;
        distinct = k.fresh.distinct;
      },
  λ k.
      poll_pages_complete lister k.pages max_poll_pages [] [] k.few
        (IsOpen-first k.tokens (tokens-nonempty lister k.pages) k.distinct),
)
