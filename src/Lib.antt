-- ===== src/Lib.antt =====
-- A model of aggregated-apiserver-operator: an API server that presents the resources of several
-- Kubernetes clusters as one, and the operator that runs one such server for each AggregatedAPI.
--
-- The parts and how they interact. A Server (pkg/apiserver/server.go) registers member clusters,
-- resolves what each serves through its discovery client (FromDiscovery, Filter), merges that
-- (Union, both in pkg/apiserver/discovery.go) and installs one storage for each merged resource
-- (pkg/apiserver/generic.go). A storage (pkg/apiserver/storage) answers the requests for its
-- resource by calls of the members' clients, and marks every object with its cluster. The operator
-- (pkg/controllers/operator/aggregatedapi) keeps a Deployment and a Service for each AggregatedAPI;
-- the controller in that workload (pkg/controllers/api-aggregator) registers the clusters that the
-- AggregatedAPI names.
--
-- Files:
--   Prelude        shared names; lists and association lists, results, texts (Go's package
--                  strings), sorting
--   Meta           schema.GroupVersion and its kin, string maps, the constants of apis/v1alpha1
--   Kube           the types and functions of the Kubernetes libraries that the program uses, as
--                  the fields of a record; Kube/Laws their documented behaviour, as hypotheses
--   Discovery      FromDiscovery (from_discovery), Filter, matches, Union; Parse, Select, Merge,
--                  Table, Union, Reordered and Order have the theorems
--   Members        the calls of the member clusters, their answers, handlers as functions on the
--                  calls made so far, and the goroutines of an errgroup (in_group)
--   Storage        Options, New, client, asUnstructured; Metadata (metadata.go), Locate and Listing
--                  (reader.go), Write (writer.go, status.go), Watch (watcher.go): the opening in
--                  Watch and OpenAll, the goroutines in Watch/Stream; ReadBack composes writes with
--                  Get, over members that are stores
--   Configuration  the configuration of newGenericServer (generic.go) and the OpenAPI names and
--                  definitions (scheme.go)
--   Install        the rest of newGenericServer and installResources (generic.go), installGroupVersion
--                  (install.go); Writer, Stores and Discovered have the theorems
--   Server         Options.defaults, resolve, SetCluster, RemoveCluster, Clusters, rebuild,
--                  swapHandler, resync (server.go); Rebuild, Consistent, Members, Serving
--                  and Settled have the theorems. Server/Writes has the operations write by
--                  write, and ServeHTTP; Moments, Live and Interleaved their theorems. Listen is
--                  listen, and Url compares Options.URL with the configured address
--   Operator       reconcile, finalize, the children and the map function of SetupWithManager;
--                  Setup has NewController, SetupWithManager and the Setup of
--                  pkg/controllers/operator/config, and Command cmd/operator; Labels, Lengths,
--                  Reconcile, Success, World, Stable, Converges, Started and Commanded have the
--                  theorems
--   Aggregator     registerCluster, restConfigFromSecret and the two loops of run in
--                  pkg/controllers/api-aggregator/aggregatedapi, and in Aggregator/Pass the whole
--                  pass: reconcile, commitStatus, setConditionReady, the kubeconfig Secret;
--                  Pass/Report has its theorem;
--                  Sync, Registered and Settled have theorems on the loops; Startup has the
--                  flags, the options and cmd/api-aggregator's start; Process has its goroutines:
--                  the manager, Run and resyncLoop
--   Codec          scheme.go, protobuf.go and the convertor of install.go: the decoder that fills
--                  in a missing kind, the round trip of protobuf bodies, conversions; Negotiation
--                  has defaultingNegotiatedSerializer, Negotiated its theorem
--   Tests          a concrete choice of all parameters, and the theorems at concrete inputs
--
-- How state is modelled. Whatever the program calls over the network is a parameter whose answer
-- may depend on all calls made before: a handler maps the list of calls so far to its result and
-- the longer list, so that a theorem on the list says which calls were made, in which order and
-- with which content. The goroutines of an errgroup are run one after the other, in the order of
-- the list of clusters, which is any order. A Go map that is ranged over is an association list in
-- the order in which the loop meets its entries; a Go map that is only read is a function. The
-- server is a record; each of its operations holds the mutex, so a run is a sequence of them, and
-- a request, which takes no lock, comes between any two of its writes.
-- Contexts are numbered, and a cancel function is the number of its context. The goroutines of a
-- watch are a step relation, interleaved in any order; a send on the unbuffered channel and its
-- receipt are one step, and what a member's watch sends is the environment's choice. Every other
-- loop of the model runs over a finite list and is structural recursion: there is no fuel.
--
-- A pass of the api-aggregator's reconciler is one step in Aggregator/Pass: no tick of the resync
-- loop comes between its calls of the server, as it can in the program. A port and an interval are
-- natural numbers, so a negative interval, on which time.NewTicker panics, is left out. go-restful's
-- Container.Add ends the process on a duplicate root path; in Install that is an error, behind
-- which the model goes on and the program does not.
--
-- Not modelled: the cancellation of an errgroup's context by its first error, for the calls of the
-- members (their answers are arbitrary, so that what a cancelled call answers is covered); the
-- inside of the libraries' schemes and serializers and the wiring of managers; generated code.
pub mod Prelude
pub mod Meta
pub mod Kube
pub mod Discovery
pub mod Members
pub mod Storage
pub mod Operator
pub mod Configuration
pub mod Install
pub mod Codec
pub mod Server
pub mod Tests
pub mod Aggregator
