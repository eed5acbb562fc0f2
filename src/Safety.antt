-- ===== src/Safety.antt =====
-- What must have happened before a call that changes a Talos node, read off the history of calls.
use yk_talos_management.Prelude.{
  String, Option, none, some, ◌⊎◌, ◌≢◌, List, [], ◌∷◌, Bool, true, false, ◌==◌, ◌&&◌, ◌!=◌,
  string_eq, ◌≡◌, not, leb, length,
}
use yk_talos_management.Prelude.Dict.{text_at}
use yk_talos_management.Api.{TalosNode, NodePhase, node_phase_eq}
use yk_talos_management.Effects.Error.{ok}
use yk_talos_management.Effects.Environment.{Env}
use yk_talos_management.Effects.Calls.{Call, Entry, did, failed, Trace}
use yk_talos_management.Node.Drain.Evictable.{is_evictable}
use yk_talos_management.Talos.Finalizer.{annotation_reset, annotation_last_reset}

-- The last call was a successful status write of a node in phase Upgrading.
abbrev pub upgrade_announced : List Entry → Bool
upgrade_announced (did (Call.update_node_status n) ∷ rest) = n.status.phase == NodePhase.upgrading
upgrade_announced _ = false

-- A reset, graceful or not.
abbrev pub is_reset : Call → Bool
is_reset (Call.reset conn ip graceful) = true
is_reset _ = false

-- The IP that a graceful reset is sent to.
abbrev pub graceful_ip : Call → Option String
graceful_ip (Call.reset conn ip true) = some ip
graceful_ip _ = none

abbrev pub precondition : Call → List Entry → Bool
precondition (Call.upgrade conn ip image) rest = upgrade_announced rest
precondition (Call.evict client pod) rest = is_evictable pod && not pod.terminating
precondition (Call.etcd_force_remove conn survivor dead) rest = survivor != dead
precondition (Call.update_cluster c) rest = leb 1 (length c.spec.endpoints)
precondition _ rest = true

module _ (env : Env) where
  -- A successful patch of a node whose `last-reset` annotation is the request that its `reset`
  -- annotation makes, and which the API server answered with a node of that IP.
  pub record IsRecord (n : TalosNode) (ip : String) (rest : List Entry) : Type 0 where
    pub time : Trace
    pub patched : TalosNode
    pub after : time.calls ≡ rest
    pub answered : env.patch_node n time ≡ ok patched
    pub same_ip : patched.spec.node_ip ≡ ip
    pub asked : text_at annotation_reset n.meta.annotations ≢ ""
    pub recorded :
        text_at annotation_last_reset n.meta.annotations
        ≡ text_at annotation_reset n.meta.annotations

  -- Since the last reset, a request to reset the node of that IP was recorded.
  abbrev pub IsRecorded : String → List Entry → Type 0
  IsRecorded ip [] = ⊥
  IsRecorded ip (did (Call.patch_node n) ∷ rest) = IsRecord n ip rest ⊎ IsRecorded ip rest
  IsRecorded ip (did (Call.reset conn to graceful) ∷ rest) = ⊥
  IsRecorded ip (failed (Call.reset conn to graceful) ∷ rest) = ⊥
  IsRecorded ip (_ ∷ rest) = IsRecorded ip rest

  -- A graceful reset was asked for on the node that it is sent to.
  abbrev pub IsAsked : Call → List Entry → Type 0
  IsAsked c rest = (ip : String) → graceful_ip c ≡ some ip → IsRecorded ip rest

  -- Every upgrade RPC was announced, and every graceful reset was recorded, before it was sent.
  -- Only evictable pods that do not terminate yet are evicted, no node is asked to remove itself
  -- from etcd, and no cluster is written without endpoints.
  abbrev pub IsSafe : List Entry → Type 0
  IsSafe [] = Unit
  IsSafe (did c ∷ rest) = (precondition c rest ≡ true) × IsAsked c rest × IsSafe rest
  IsSafe (failed c ∷ rest) = (precondition c rest ≡ true) × IsAsked c rest × IsSafe rest
