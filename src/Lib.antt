-- ===== src/Lib.antt =====
-- The Kubernetes operator that manages Talos Linux clusters: three controllers, each a function from
-- the request of one object to calls on the API server, on Talos nodes and on the managed cluster.
--
--   Api, Api/Yaml       the custom resources of api/v1alpha1, and parsed YAML documents
--   Effects             errors, the objects and calls of the libraries, the environment that answers
--                       the calls, and the monad of code that makes them
--   Talos               internal/talos: finalizers (finalizer.go), conditions (conditions.go), the
--                       secret manager (secrets.go), secrets and configs (GenSecretsBundle,
--                       LoadOrGenSecretsBundle, GenConfig of client.go), findEtcdMemberID and the
--                       RPC wrappers of client.go (Talos/Etcd, Talos/Client), and RealDialer and
--                       realConnection of internal/controller/talos_dialer.go (Talos/Client/Dialer)
--   Retry               internal/config/config.go: GetRetryDelay and its settings
--   Factory             internal/factory/factory.go: the client of the image factory
--   Run                 internal/run/run.go, and what the SetupWithManager of each controller builds
--   Metrics             internal/metrics/metrics.go: the collectors (Metrics/Collectors), the phase
--                       gauges and ResultLabel
--   Shared              internal/controller/helpers.go, names.go and constants.go
--   Node                internal/controller/talosnode_controller.go, with talosnode_upgrade.go
--                       (Node/Upgrade, Node/Version), talosnode_extensions.go (Node/Extensions),
--                       talosnode_drain.go (Node/Drain) and dialAny of talos_dialer.go (Node/Etcd)
--   Cluster             internal/controller/taloscluster_controller.go; Cluster/Store reads the stored
--                       secrets off a history, and Cluster/Bundle is about the bundle they share
--   Bootstrap           internal/controller/talosclusterbootstrap_controller.go; Bootstrap/Backed is
--                       about the kubeconfig secret that its statuses speak of
--   History             the invariants of histories that every part of the node controller keeps
--   Safety              what has to precede the calls that change a node, read off the history
--   Quiet               the calls that do more than read from the API server
--   Tests               a concrete environment, and the theorems at concrete arguments
--
-- Modules called Order hold what is proved of histories, those called Settled what is proved of the
-- reconcile after a successful one, Node/Declared what is proved of the metrics
-- that are written, and modules called Laws the rest.
--
-- Effects. A call is a constructor of Call, and its answer comes from a field of the record Env, which
-- is a function of the arguments and of the whole history of calls: an environment may answer in any
-- way, fail at any point, and change its answers over time. Nothing is assumed of it but where a
-- theorem says so. A history lists the calls, newest first, as `did` or `failed`; events and metrics
-- are kept apart. A Go function that returns an error is a function into M; one that changes its
-- object and may fail hands the object back beside the error. A long function of the source is cut
-- into stages, each a definition with a comment that says where it begins. A deferred Close is
-- `closing`. Errors keep the cause that errors.Is and its like find through %w, and the text; the
-- quotes that %q puts around a name are left out. Logging is left out.
--
-- Integers and times. Times and durations are numbers of nanoseconds. The retry count, an int32, and
-- the delay, an int64, are two's complement words, since the code can carry them past their range.
--
-- Bounds. The loops over lists are structural. `retry.RetryOnConflict` makes at most `env.retries`
-- attempts after the first. The loop of drainPods is given as many polls as fit into its timeout, and
-- two more: a poll that does not end the loop waits for one tick of the poll interval, so that the
-- deadline has passed by then (Node/Drain/Rounds).
--
-- Parameters. What the libraries compute is a field of Env: YAML, kubeconfig files, semantic versions,
-- version contracts, secrets bundles and generated configs, the image factory, the clock, and the
-- noise that jitter adds.
--
-- Layers. To the controllers a Talos connection is a part of the environment, as in the source, where
-- it is the interface TalosConnection. Its implementation, Talos/Client, makes calls of its own: an
-- RPC of the Talos machinery library is a call with the client, the node, the timeout and the request,
-- and its reply comes from the record Machinery. The image factory is a field of Env as well, which
-- Node/Extensions/Cache fills with the client of Factory. The deadline that EtcdForceRemoveByIP shares
-- between its two RPCs is given to both.
--
-- Not modelled: cmd/main.go, which calls Run; flags, logger, scheme and signal handler of Run; the
-- generated deep copies; the version string.
pub mod Prelude
pub mod Api
pub mod Effects
pub mod History
pub mod Safety
pub mod Quiet
pub mod Retry
pub mod Metrics
pub mod Factory
pub mod Run
pub mod Talos
pub mod Shared
pub mod Node
pub mod Cluster
pub mod Bootstrap
pub mod Tests
