-- ===== src/Lib.antt =====
-- zonedns: the CoreDNS plugins that answer a query across zones with the gateway of the other zone.
--
-- An agent on every node (plugin/zonedns_agent) finds the zone of the pod that asks, declares it in
-- an EDNS0 option, and forwards the query to central; central (plugin/zonedns) believes the option
-- if the client certificate is that of an authorized agent, looks the name up in a registry polled
-- from SPIRE, and decides between the next plugin, the gateway of the other zone, and SERVFAIL.
--
-- Prelude       lists, Boolean tests, the interface of equality, results
-- Text, GoMap   Go strings as lists of bytes, with the functions of package strings that are
--               called; Go maps as association lists. The functions fold the case of ASCII letters
--               only, which are those of DNS names.
-- Dns           fields of a miekg/dns message. Its methods, and those of request.Request, are the
--               parameters MsgLib and RequestLib, with the laws that the program relies on. A copy
--               of a message is the message: messages are values, and no alias is left to see it.
-- Netip         netip.Addr and the way through its text to net.IP; netip.ParseAddr is a parameter.
-- Ednszone      internal/ednszone: Valid, Set, Get
-- Spiffezone    internal/spiffezone: FromPath, FromID
-- Zonetable     internal/zonetable: New, Gateway, Len
-- Decision      internal/decision: Decide
-- Identity      internal/identity: PeerCertificates, SPIFFEIDFromCert, NewConfig, SourceZone
-- Registry      internal/registry/registry.go: BuildSnapshot and the Store; a poll replaces the
--               whole snapshot at once, so the atomic pointer is a field.
-- Registry.Poller  internal/registry/spire.go: ListEntries, PollOnce, Run. Paging recurses on the
--               number of pages left, which is the program's own bound of 10000 pages; when it is
--               used up, the result is the program's error for it. Run is one round for each tick.
-- Central       plugin/zonedns/zonedns.go: ServeDNS, answerGateway
-- Directives    CheckDirectiveOrder of plugin/zonedns/setup.go and plugin/zonedns_agent/setup.go,
--               and insertBeforeCache of build/zonedns_register.go
-- Readiness     the generations behind the readiness gauge, plugin/zonedns_agent/setup.go; its
--               functions hold a mutex, so that reloads are sequences of steps. Readiness.Instances
--               has the goroutines of any number of instances, as a step relation.
-- Podzone       internal/podzone: upsert, remove, Run, Zone, Len, over sequences of events
-- Zonecache     internal/zonecache: New, Put, Get, Len, over the LRU table as the interface Lru.
--               Times are nanoseconds; the 32 bits of a TTL are written out.
-- Agent         plugin/zonedns_agent/agent.go and resolver.go: ServeDNS, stripZoneOption,
--               answersQuestion, resolveZone, StaticResolver. The upstream is a function.
-- Dohupstream   internal/dohupstream: Exchange, over the interface Http; Dohupstream.Mtls has NewMTLS,
--               buildHTTPClient and NewWithHTTPClient
-- Resources     what setup opens and closes, as sequences of actions, and the Workload API of
--               go-spiffe as the interface Spiffe; Kube is that of client-go
-- Drift         internal/drift/drift.go and filter.go: Compare, ShouldSkipHost,
--               ShouldSkipVirtualService; sort.Strings is an insertion sort
-- Drift.Collect internal/drift/collect.go and cmd/zonedns-drift/main.go: the collection of hosts and
--               labels from the answers of the Kubernetes API, printReport, the exit codes
-- Drift.Command cmd/zonedns-drift/main.go from the parsed flags on: loadConfig, run, main; with
--               VirtualServiceGVRs and stringSlice of internal/drift/collect.go
-- Caddy         the dispenser of Corefile tokens as an interface, with the two loops that both parsers
--               run over it. A dispenser says how many tokens are left, and each round uses one up:
--               that many rounds of fuel are enough, and parsing is shown to end with them. Also
--               strconv.ParseUint and strconv.Atoi; time.ParseDuration and url.Parse are parameters.
-- Setup         plugin/zonedns/setup.go: parseConfig
-- AgentSetup    plugin/zonedns_agent/setup.go: parseConfig, and the Agent that setup adds
-- Startup       plugin/zonedns/setup.go: setup, warnIfDoT, dialSPIRE, and the gauges that they set. The
--               hooks are data: OnStartup runs Registry.Poller.run over the store that the handler
--               reads, OnShutdown is a list of actions.
-- AgentStartup  plugin/zonedns_agent/setup.go: setup
-- EndToEnd      an agent's declaration as central reads it, the way of a query between zones to the
--               gateway and back, where the replies of an agent come from, and both plugins set up
--               from their Corefiles
-- Examples      the theorems at concrete messages, pods, polls and caches
--
-- In a component, the file of its name has the definitions, and the files below it the theorems.
--
-- Not modelled: the parsing of flags, the registration of the metrics and of the plugins, the texts
-- of errors and log lines, the layout of printed lines, the cancellation of calls by their context,
-- and internal/testcerts, which the tests use. A failed write of a reply only logs, and has no effect
-- here. What is called of third parties is an interface: its values are arguments, and a call that
-- returns an error returns none.
pub mod Prelude
pub mod Text
pub mod GoMap
pub mod Dns
pub mod Ednszone
pub mod Spiffezone
pub mod Netip
pub mod Resources
pub mod Kube
pub mod Zonetable
pub mod Decision
pub mod Identity
pub mod Registry
pub mod Central
pub mod Directives
pub mod Readiness
pub mod Podzone
pub mod Zonecache
pub mod Agent
pub mod EndToEnd
pub mod Drift
pub mod Dohupstream
pub mod Caddy
pub mod Setup
pub mod AgentSetup
pub mod Startup
pub mod AgentStartup
pub mod Examples
