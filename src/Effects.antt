-- ===== src/Effects.antt =====
-- What the controllers do to the outside world. The API server, the Talos nodes, the remote
-- cluster, the image factory, the clock and the libraries are an environment that answers each
-- call from the history of calls so far: it may change between two calls and may fail any of them.
-- Every call is recorded, reads too, with its outcome and the newest first.
pub mod Error
pub mod Objects
pub mod Requests
pub mod Machinery
pub mod Calls
pub mod Monad
pub mod Environment
pub mod Kube
pub mod Talos
