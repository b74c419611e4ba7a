-- ===== src/Registry/Poller/Polls.antt =====
-- `PollOnce`: what a poll does to the store.
use zonedns.Prelude.{◌≡◌, ◌↔◌, refl, List, [], arith, Result, ok, err}
use zonedns.Text.{str_eq}
use zonedns.Registry.{Entry, Stats, Store, build_snapshot, replace}
use zonedns.Registry.Poller.{PollError, Lister, max_poll_pages, poll_pages, poll_once}
use zonedns.Registry.Poller.Paging.{IsComplete, first_pages_iff}

-- A successful poll has read all the pages, and has put their snapshot into the store.
pub record IsPolled (lister : Lister) (st st' : Store) (stats : Stats) : Type 0 where
  pub all : List Entry
  pub complete : IsComplete lister all
  pub stored : st' ≡ replace st (build_snapshot all).0
  pub counted : stats ≡ (build_snapshot all).1

module _ (lister : Lister) (st : Store) where
  poll_once_of_pages :
      (r : Result PollError (List Entry))
      → poll_pages lister max_poll_pages 0 [] [] [] ≡ r
      → (st' : Store) (stats : Stats) → poll_once lister st ≡ (st', ok stats)
      → IsPolled lister st st' stats
  unfolding poll_once
  poll_once_of_pages (err e) q st' stats h = ground arith
  poll_once_of_pages (ok all) q st' stats h = record {
    all = all;
    complete = (first_pages_iff lister all).0 q;
    stored = ground arith;
    counted = ground arith;
  }

  poll_once_of_complete :
      (st' : Store) (stats : Stats)
      → IsPolled lister st st' stats
      → poll_once lister st ≡ (st', ok stats)
  unfolding poll_once
  poll_once_of_complete st' stats k =
      rw ((first_pages_iff lister k.all).1 k.complete, poll_once) (rw (k.stored, k.counted))

  -- A poll succeeds exactly if the pages from the empty token on end, after at most 10000 of them
  -- and with no token handed out twice; the store then holds the snapshot of all their entries.
  pub poll_once_ok_iff :
      (st' : Store) (stats : Stats)
      → (poll_once lister st ≡ (st', ok stats)) ↔ IsPolled lister st st' stats
  poll_once_ok_iff st' stats = (
    poll_once_of_pages (poll_pages lister max_poll_pages 0 [] [] []) refl st' stats,
    poll_once_of_complete st' stats,
  )

  -- A poll that fails, in whatever way, leaves the store as it was: ready stays ready with the old
  -- snapshot, and a store that never was ready does not become so.
  pub poll_once_error :
      (e : PollError) → (poll_once lister st).1 ≡ err e → poll_once lister st ≡ (st, err e)
  unfolding poll_once
  poll_once_error e h = ground arith
