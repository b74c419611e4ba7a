-- ===== src/Examples/Corefiles/Startups.antt =====
-- The central plugin from its Corefile to its gauges.
use zonedns.Prelude.{◌≡◌, ◌≢◌, refl, none, some, List, [], ◌∷◌, ok}
use zonedns.Text.{Str, text, str_eq, str_beq, has_prefix}
use zonedns.Directives.{check_central, check_order, scan, place, judge}
use zonedns.Dns.{Msg, MsgLib, RequestLib}
use zonedns.Identity.{Transport}
use zonedns.Resources.{Action, opened, closed, connection, run_context, IsTidy}
use zonedns.Registry.{new_store, replace}
use zonedns.Registry.Poller.{Lister, round, run}
use zonedns.Setup
use zonedns.Central.{next_plugin, serve_dns}
use zonedns.Startup.{
  Gauges, publish_all, Started, Instance, instance_of, setup, handler_at, connect, connected,
  dial_spire,
}
use zonedns.Startup.Accounts.{setup_accounts}
use zonedns.Startup.Gauging.{IsShown}
use zonedns.Startup.Courses.{IsTold}
use zonedns.Startup.Installs.{IsInstalled, setup_installs, gauges-IsShown, unpolled_falls_through}
use zonedns.Startup.Overlaps.{reload_hides_outage}
use zonedns.Examples.{parse_addr, agent_url}
use zonedns.Examples.Corefiles.{words, words_of, parse_duration}
use zonedns.Examples.Clusters.{workload, grpc}
use zonedns.Examples.Registries.{
  two_pages, two_pages-IsPolled, no_server, no_server-Fails, polled, poller,
}

abbrev pub directives : List Str
directives = text "zonedns" ∷ text "cache" ∷ []

abbrev corefile : words.State
corefile = words_of (
  [],
  text "zonedns"
      ∷ text "spire_server"
      ∷ text "unix:///run/spire"
      ∷ text "authorized_agent"
      ∷ agent_url.string
      ∷ text "}"
      ∷ [],
)

abbrev cfg : Setup.Config
cfg = record Setup.default_config {
  spire_server = text "unix:///run/spire";
  authorized_agents = agent_url.string ∷ [];
}

-- The gauges that an instance of before left.
abbrev pub before : Gauges
before = record {
  registry_names = 5;
  registry_conflicts = 0;
  registry_ready = 1;
  registry_poll_errors = 2;
}

abbrev i : Instance workload grpc
i = instance_of workload grpc cfg (text "unix:///run/spire")

abbrev down : List Action
down = closed run_context ∷ closed connection ∷ []

abbrev out : Started workload grpc
out = record {
  warning = [];
  gauges = record before { registry_ready = 0; registry_poll_errors = 0 };
  outcome = (opened connection ∷ opened run_context ∷ [], ok (i, down));
}

pub in_order : check_central directives ≡ none
unfolding check_central check_order scan place judge str_beq
in_order = refl

parsed : Setup.parse_config parse_duration parse_addr words corefile ≡ some (ok cfg)
unfolding Setup.parse_config zonedns.Caddy.blocks words zonedns.Examples.Corefiles.next words_of
    zonedns.Examples.Corefiles.next_block str_beq has_prefix
parsed = refl

connects : connect workload grpc cfg ≡ out.outcome
unfolding connect dial_spire connected has_prefix
connects = refl

starts :
    setup workload grpc parse_duration parse_addr words directives (text "https") corefile before
    ≡ some out
unfolding setup str_beq
starts = rw (in_order, parsed, setup, connects) refl

setup_accounts_example :
    (setup workload grpc parse_duration parse_addr words directives (text "https") corefile before
      ≢ none)
    × ((o : Started workload grpc)
        → setup workload grpc parse_duration parse_addr words directives
            (text "https")
            corefile
            before
          ≡ some o
        → IsTidy [] o.outcome)
setup_accounts_example =
    setup_accounts workload grpc parse_duration parse_addr words directives (text "https") corefile
      before []

setup_installs_example :
    IsInstalled workload grpc parse_duration parse_addr words directives
      (text "https")
      corefile
      before
      out
      i
setup_installs_example =
    setup_installs workload grpc parse_duration parse_addr words directives (text "https") corefile
      before out i down starts refl

abbrev rounds : List Lister
rounds = no_server ∷ two_pages ∷ []

abbrev failing : List Lister
failing = no_server ∷ no_server ∷ []

gauges-IsShown_example :
    IsShown (publish_all (run i.poller rounds).1 out.gauges) (run i.poller rounds).0
    × IsTold rounds (run i.poller rounds).0 (publish_all (run i.poller rounds).1 out.gauges)
    × ((run i.poller rounds).0.store ≡ (handler_at workload grpc i rounds).registry)
gauges-IsShown_example =
    gauges-IsShown workload grpc parse_duration parse_addr words directives (text "https") corefile
      before out i down starts refl rounds

unpolled_falls_through_example :
    ((lib : MsgLib) (req : RequestLib) (t : Transport) (r : Msg)
      → (serve_dns lib req (handler_at workload grpc i failing) t r).outcome ≡ next_plugin)
    × ((publish_all (run i.poller failing).1 out.gauges).registry_ready ≡ 0)
    × ((publish_all (run i.poller failing).1 out.gauges).registry_poll_errors ≡ 2)
unpolled_falls_through_example =
    unpolled_falls_through workload grpc parse_duration parse_addr words directives (text "https")
      corefile before out i down starts refl failing (no_server-Fails, (no_server-Fails, tt))

reload_hides_outage_example :
    ((publish_all
        (run i.poller failing).1
        (publish_all (round poller two_pages).1 out.gauges)).registry_ready
      ≡ 1)
    × ((lib : MsgLib) (req : RequestLib) (t : Transport) (r : Msg)
        → (serve_dns lib req (handler_at workload grpc i failing) t r).outcome ≡ next_plugin)
reload_hides_outage_example =
    reload_hides_outage workload grpc parse_duration parse_addr words directives (text "https")
      corefile before out i down starts refl poller two_pages (replace new_store polled.0) polled.1
      refl (two_pages-IsPolled new_store) failing (no_server-Fails, (no_server-Fails, tt))
