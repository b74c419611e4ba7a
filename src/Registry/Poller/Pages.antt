-- ===== src/Registry/Poller/Pages.antt =====
-- Sequences of pages, and the loop of `PollOnce` over them.
use zonedns.Prelude.{
  ℕ, zero, suc, ◌+◌, ◌<◌, ◌≡◌, ◌≢◌, ap, sym, ◌∙◌, Bool, true, false, not, ◌&&◌, List, [], ◌∷◌, ◌++◌,
  arith, ◌==◌, if◌then◌else◌, ok, err, eq_iff, All, length, append_assoc,
}
use zonedns.Text.{Str, str_eq}
use zonedns.GoMap
use zonedns.GoMap.{Set}
use zonedns.GoMap.Laws.{has-insert}
use zonedns.Registry.{Entry}
use zonedns.Registry.Poller.{PollError, token_twice, Lister, poll_pages}

-- `Pages n token tokens all`: from the n-th call on, asked with `token`, the pages hold the
-- entries `all`, and `tokens` are the tokens handed out on the way.
pub data Pages (lister : Lister) : ℕ → Str → List Str → List Entry → Type 0 where
  last :
      {n : ℕ} {token : Str} {page : List Entry}
      → lister n token ≡ ok (page, [])
      → Pages lister n token [] page
  more :
      {n : ℕ} {token next : Str} {tokens : List Str} {all : List Entry} (page rest : List Entry)
      → lister n token ≡ ok (page, next)
      → next ≢ []
      → Pages lister (n + 1) next tokens rest
      → all ≡ page ++ rest
      → Pages lister n token (next ∷ tokens) all

abbrev pub Distinct : List Str → Type 0
Distinct [] = Unit
Distinct (t ∷ ts) = All (λ u. u ≢ t) ts × Distinct ts

-- A token that `PollOnce` goes on with.
abbrev pub is_fresh : Str → Set Str → Bool
is_fresh token seen = not (not (token == []) && GoMap.has token seen)

abbrev pub after : Str → Set Str → Set Str
after token seen = if not (token == []) then GoMap.insert token tt seen else seen

-- What the loop needs of the tokens to come.
pub record IsOpen (seen : Set Str) (token : Str) (tokens : List Str) : Type 0 where
  pub now : is_fresh token seen ≡ true
  pub later : All (λ u. (u ≢ token) × (GoMap.has u seen ≡ false)) tokens
  pub distinct : Distinct tokens

has-after :
    (token u : Str) (seen : Set Str)
    → u ≢ token
    → GoMap.has u seen ≡ false
    → GoMap.has u (after token seen) ≡ false
has-after token u seen ne h = ground (arith, has-insert token u tt seen, eq_iff token u)

later-after :
    (token next : Str) (seen : Set Str) (tokens : List Str)
    → All (λ u. (u ≢ token) × (GoMap.has u seen ≡ false)) tokens
    → All (λ u. u ≢ next) tokens
    → All (λ u. (u ≢ next) × (GoMap.has u (after token seen) ≡ false)) tokens
later-after token next seen [] h k = tt
later-after token next seen (u ∷ us) ((ne, unseen), h) (ne', k) =
    ((ne', has-after token u seen ne unseen), later-after token next seen us h k)

IsOpen-after :
    {seen : Set Str} {token next : Str} {tokens : List Str}
    → IsOpen seen token (next ∷ tokens)
    → IsOpen (after token seen) next tokens
IsOpen-after {seen} {token} {next} {tokens} k = record {
  now = rw (has-after token next seen k.later.0.0 k.later.0.1) (ground arith);
  later = later-after token next seen tokens k.later.1 k.distinct.0;
  distinct = k.distinct.1;
}

module _ (lister : Lister) (left n : ℕ) (token : Str) (seen : Set Str) (all : List Entry) where
  pub poll_pages_stale :
      is_fresh token seen ≡ false
      → poll_pages lister (suc left) n token seen all ≡ err (token_twice token)
  unfolding poll_pages
  poll_pages_stale h = ground arith

  pub poll_pages_failed :
      (e : PollError)
      → is_fresh token seen ≡ true
      → lister n token ≡ err e
      → poll_pages lister (suc left) n token seen all ≡ err e
  unfolding poll_pages
  poll_pages_failed e h q = ground arith

  pub poll_pages_last :
      (page : List Entry)
      → is_fresh token seen ≡ true
      → lister n token ≡ ok (page, [])
      → poll_pages lister (suc left) n token seen all ≡ ok (all ++ page)
  unfolding poll_pages
  poll_pages_last page h q = ground (arith, eq_iff {T = Str} [] [])

  pub poll_pages_more :
      (page : List Entry) (next : Str)
      → is_fresh token seen ≡ true
      → lister n token ≡ ok (page, next)
      → next ≢ []
      → poll_pages lister (suc left) n token seen all
        ≡ poll_pages lister left (n + 1) next (after token seen) (all ++ page)
  unfolding poll_pages
  poll_pages_more page next h q ne = ground (arith, eq_iff next [])

module _ (lister : Lister) where
  pub poll_pages_complete :
      {n : ℕ} {token : Str} {tokens : List Str} {rest : List Entry}
      → Pages lister n token tokens rest
      → (left : ℕ) (seen : Set Str) (all : List Entry) → length tokens < left
      → IsOpen seen token tokens
      → poll_pages lister left n token seen all ≡ ok (all ++ rest)
  poll_pages_complete p zero seen all h k = absurd (omega arith)
  poll_pages_complete (last e) (suc left) seen all h k =
      poll_pages_last lister left _ _ seen all _ k.now e
  poll_pages_complete {n = n} (more page rest e ne ps q) (suc left) seen all h k =
      poll_pages_more lister left _ _ seen all page _ k.now e ne
      ∙ poll_pages_complete {n = n + 1} ps left _ (all ++ page) (omega arith) (IsOpen-after k)
      ∙ ap ok (append_assoc all page rest ∙ ap (λ t. all ++ t) (sym q))

  pub tokens-nonempty :
      {n : ℕ} {token : Str} {tokens : List Str} {all : List Entry}
      → Pages lister n token tokens all
      → All (λ u. u ≢ []) tokens
  tokens-nonempty (last e) = tt
  tokens-nonempty {n = n} (more page rest e ne ps q) = (ne, tokens-nonempty {n = n + 1} ps)
