-- ===== src/Registry/Poller.antt =====
-- internal/registry/spire.go: fetching the entries page by page, and the polling loop. SPIRE's
-- answers are a parameter: `list_entries n token` is what the n-th call of a poll returns.
pub mod Pages
pub mod Paging
pub mod Polls
pub mod Rounds
use zonedns.Prelude.{
  ℕ, zero, suc, ◌+◌, Bool, true, false, not, ◌&&◌, Option, none, some, List, [], ◌∷◌, ◌++◌, ◌==◌,
  if◌then◌else◌, Result, ok, err,
}
use zonedns.Text.{Str, str_eq}
use zonedns.GoMap
use zonedns.GoMap.{Set}
use zonedns.Registry.{Entry, Stats, Store, build_snapshot, replace}

-- An entry of the SPIRE response; its SPIFFE ID may be a nil pointer, and else has a path.
pub record SpireEntry : Type 0 where
  pub spiffe_id : Option Str
  pub dns_names : List Str

-- The loop of `spireLister.ListEntries`.
unfoldable pub usable_entries : List SpireEntry → List Entry
usable_entries [] = []
usable_entries (e ∷ rest) =
    let out = usable_entries rest in
    elim e.spiffe_id [
      | none ↦ out
      | some path ↦ record { spiffe_id_path = path; dns_names = e.dns_names } ∷ out
    ]

pub data PollError : Type 0 where
  too_many_pages : PollError
  token_twice : Str → PollError
  list_failed : PollError

abbrev pub max_poll_pages : ℕ
max_poll_pages = 10000

-- A page and the token of the next one, or an error.
abbrev pub Lister : Type 0
Lister = ℕ → Str → Result PollError (List Entry × Str)

-- spireLister over a client whose n-th call returns a response or fails.
pub list_entries : (ℕ → Str → Option (List SpireEntry × Str)) → Lister
list_entries client n token = elim (client n token) [
  | none ↦ err list_failed
  | some (entries, next) ↦ ok (usable_entries entries, next)
]

module _ (lister : Lister) where
  -- The loop of `PollOnce`: `left` pages are allowed, `pages` were read.
  unfoldable pub poll_pages :
      (left pages : ℕ) → Str → Set Str → List Entry → Result PollError (List Entry)
  poll_pages zero pages token seen all = err too_many_pages
  poll_pages (suc left) pages token seen all =
      let seen' = if not (token == []) then GoMap.insert token tt seen else seen in
      let fetch : Result PollError (List Entry) = elim (lister pages token) [
        | err e ↦ err e
        | ok (page, next) ↦
            let rest = poll_pages left (pages + 1) next seen' (all ++ page) in
            if next == [] then ok (all ++ page) else rest
      ] in
      if not (token == []) && GoMap.has token seen then err (token_twice token) else fetch

  -- The store after the poll, and its result.
  unfoldable pub poll_once : Store → Store × Result PollError Stats
  poll_once st = elim (poll_pages max_poll_pages 0 [] [] []) [
    | err e ↦ (st, err e)
    | ok all ↦ (replace st (build_snapshot all).0, ok (build_snapshot all).1)
  ]

-- Calls of the two hooks of a Poller.
pub data Call : Type 0 where
  on_snapshot : Stats → Call
  on_poll_errors : ℕ → Call

pub record Poller : Type 0 where
  pub store : Store
  pub poll_errors : ℕ
  pub has_on_snapshot : Bool
  pub has_on_poll_errors : Bool

-- `NewPoller`: the hooks are nil. The lister and the interval are arguments of the rounds.
abbrev pub new_poller : Store → Poller
new_poller store = record {
  store = store;
  poll_errors = 0;
  has_on_snapshot = false;
  has_on_poll_errors = false;
}

abbrev pub consecutive_poll_errors : Poller → ℕ
consecutive_poll_errors p = p.poll_errors

abbrev call_if : Bool → Call → List Call
call_if set c = if set then c ∷ [] else []

-- One round of `Run` after its poll returned: the counter, and the hooks called.
settle : Poller → Store × Result PollError Stats → Poller × List Call
settle p (st, err e) =
    let n = p.poll_errors + 1 in
    (record p { store = st; poll_errors = n }, call_if p.has_on_poll_errors (on_poll_errors n))
settle p (st, ok stats) = (
  record p { store = st; poll_errors = 0 },
  call_if p.has_on_snapshot (on_snapshot stats) ++ call_if p.has_on_poll_errors (on_poll_errors 0),
)

unfoldable pub round : Poller → Lister → Poller × List Call
unfolding settle
round p lister = settle p (poll_once lister p.store)

-- `Run` for as many rounds as there are listers, one for each tick until the context ends.
unfoldable pub run : Poller → List Lister → Poller × List Call
unfolding round
run p [] = (p, [])
run p (lister ∷ rest) =
    let (p', calls) = round p lister in let (p'', later) = run p' rest in (p'', calls ++ later)
