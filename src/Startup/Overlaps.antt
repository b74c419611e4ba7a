-- ===== src/Startup/Overlaps.antt =====
-- A reload: the gauges are shared by the old poller, which runs until OnShutdown, and the new one.
use zonedns.Prelude.{
  ℕ, ◌+◌, ◌≡◌, ◌∙◌, refl, Bool, true, false, Option, some, List, [], ◌∷◌, if◌then◌else◌, ok, All,
}
use zonedns.Text.{Str}
use zonedns.Dns.{Msg, MsgLib, RequestLib}
use zonedns.Netip.{Addr}
use zonedns.Resources.{Action, Spiffe}
use zonedns.Caddy.{Dispenser, ℤ}
use zonedns.Identity.{Transport}
use zonedns.Registry.{Stats, Store}
use zonedns.Registry.Poller.{Lister, Poller, on_snapshot, on_poll_errors, round, run}
use zonedns.Registry.Poller.Polls.{IsPolled}
use zonedns.Registry.Poller.Rounds.{Fails, error_calls, run_outage, round_recovers}
use zonedns.Central.{next_plugin, serve_dns}
use zonedns.Startup.{Grpc, Gauges, publish, publish_all, Started, Instance, setup, handler_at}
use zonedns.Startup.Installs.{unpolled_falls_through}

publish_all-errors :
    (set : Bool) (n : ℕ) (listers : List Lister) (g : Gauges)
    → (publish_all (error_calls set n listers) g).registry_ready ≡ g.registry_ready
unfolding publish_all publish
publish_all-errors set n [] g = refl
publish_all-errors true n (l ∷ rest) g = publish_all-errors true (n + 1) rest _
publish_all-errors false n (l ∷ rest) g = publish_all-errors false (n + 1) rest g

publish_all-recovered :
    (p : Poller) (lister : Lister) (st : Store) (stats : Stats) (g : Gauges)
    → p.has_on_snapshot ≡ true
    → IsPolled lister p.store st stats
    → (publish_all (round p lister).1 g).registry_ready ≡ 1
unfolding publish_all publish
publish_all-recovered p lister st stats g h k =
    rw (round_recovers p lister st stats k, h) (reported p.has_on_poll_errors)
  where
    reported :
        (set : Bool)
        → (publish_all
            (on_snapshot stats ∷ (if set then on_poll_errors 0 ∷ [] else []))
            g).registry_ready
          ≡ 1
    reported true = refl
    reported false = refl

module _ (spiffe : Spiffe) (grpc : Grpc spiffe) (parse_duration : Str → Option ℤ)
    (parse_addr : Str → Option Addr) (d : Dispenser) where
  -- The reset in setup does not keep the gauge true over a reload: if the old poller, which reports
  -- its snapshots, still completes a poll after the setup of the new instance, and the polls of the
  -- new one fail, then the gauge says 1, although every query to the new instance falls through.
  pub reload_hides_outage :
      (directives : List Str) (transport : Str) (s : d.State) (g : Gauges)
      (out : Started spiffe grpc) (i : Instance spiffe grpc) (down : List Action)
      → setup spiffe grpc parse_duration parse_addr d directives transport s g ≡ some out
      → out.outcome.1 ≡ ok (i, down)
      → (old : Poller) (lister : Lister) (st : Store) (stats : Stats) → old.has_on_snapshot ≡ true
      → IsPolled lister old.store st stats
      → (listers : List Lister) → All Fails listers
      → ((publish_all
            (run i.poller listers).1
            (publish_all (round old lister).1 out.gauges)).registry_ready
          ≡ 1)
        × ((lib : MsgLib) (req : RequestLib) (t : Transport) (r : Msg)
            → (serve_dns lib req (handler_at spiffe grpc i listers) t r).outcome ≡ next_plugin)
  reload_hides_outage directives transport s g out i down h k old lister st stats hook polled
        listers fails =
      (
        rw (run_outage i.poller listers fails) (
            publish_all-errors _ _ listers _
            ∙ publish_all-recovered old lister st stats out.gauges hook polled),
        (unpolled_falls_through spiffe grpc parse_duration parse_addr d directives transport s g out
            i down h k listers fails).0,
      )
