-- ===== src/Talos/Client/Members.antt =====
-- What `EtcdForceRemoveByIP` does to the members of etcd. The members are those at the start, less
-- those that answered requests removed.
use yk_talos_management.Prelude.{
  ℕ, ◌≤◌, String, List, [], ◌∷◌, All, any, count_if, Bool, ◌==◌, nat_eq, if◌then◌else◌, Option, ◌≡◌,
  ◌≢◌, refl, sym, arith,
}
use yk_talos_management.Effects.Error.{Answer, ok, err}
use yk_talos_management.Effects.Objects.{Connection}
use yk_talos_management.Effects.Requests.{Request}
use yk_talos_management.Effects.Machinery.{Machinery}
use yk_talos_management.Effects.Calls.{Call, Entry, did, Trace}
use yk_talos_management.Effects.Environment.{Env}
use yk_talos_management.Talos.Etcd.{EtcdMember}
use yk_talos_management.Talos.Etcd.Laws.{
  names_host, all_members, first_id, find_etcd_member_id-first,
}
use yk_talos_management.Talos.Client.{report, etcd_force_remove_by_ip}
use yk_talos_management.Talos.Client.Timeout.{with_timeout}

abbrev pub without : ℕ → List EtcdMember → List EtcdMember
without id [] = []
without id (m ∷ members) = let rest = without id members in if m.id == id then rest else m ∷ rest

-- The members that are left after a history.
abbrev pub remaining : List EtcdMember → List Entry → List EtcdMember
remaining start [] = start
remaining start (did (Call.rpc c node limit (Request.etcd_remove_member_by_id id)) ∷ calls) =
    without id (remaining start calls)
remaining start (_ ∷ calls) = remaining start calls

-- Ids are distinct, and none is 0.
abbrev pub Distinct : List EtcdMember → Type 0
Distinct [] = Unit
Distinct (m ∷ members) = (m.id ≢ 0) × All (λ x. x.id ≢ m.id) members × Distinct members

module _ (hostname : String → Option String) (dead_node_ip : String) where
  -- Whether a member has a peer URL of the node.
  abbrev pub is_dead : EtcdMember → Bool
  is_dead m = any (names_host hostname dead_node_ip) m.peer_urls

  abbrev pub exclude_dead : List EtcdMember → List EtcdMember
  exclude_dead [] = []
  exclude_dead (m ∷ members) =
      let rest = exclude_dead members in if is_dead m then rest else m ∷ rest

  -- What is left of the members, by the answer.
  abbrev pub expected : Answer (Unit {0}) → List EtcdMember → List EtcdMember
  expected (ok _) members = exclude_dead members
  expected (err e) members = members

  without-absent :
      (id : ℕ) (members : List EtcdMember)
      → All (λ x. x.id ≢ id) members
      → without id members ≡ members
  without-absent id [] h = refl
  without-absent id (m ∷ members) (h, rest) = ground (arith, h, without-absent id members rest)

  exclude_dead-none :
      (members : List EtcdMember) → count_if is_dead members ≡ 0 → exclude_dead members ≡ members
  exclude_dead-none [] h = refl
  exclude_dead-none (m ∷ members) h = ground (arith, h, exclude_dead-none members)

  first_id_other :
      (id : ℕ) (members : List EtcdMember)
      → id ≢ 0
      → All (λ x. x.id ≢ id) members
      → first_id hostname members dead_node_ip ≢ id
  first_id_other id [] h a = λ p. h (sym p)
  first_id_other id (m ∷ members) h (n, a) = grind (arith, h, n, first_id_other id members h a)

  without-first :
      (members : List EtcdMember)
      → Distinct members
      → count_if is_dead members ≤ 1
      → without (first_id hostname members dead_node_ip) members ≡ exclude_dead members
  without-first [] d h = refl
  without-first (m ∷ members) (n, a, d) h = grind (
    arith,
    without-absent m.id members a,
    exclude_dead-none members,
    first_id_other m.id members n a,
    without-first members d,
  )

  exclude_dead-unlisted :
      (members : List EtcdMember)
      → Distinct members
      → first_id hostname members dead_node_ip ≡ 0
      → exclude_dead members ≡ members
  exclude_dead-unlisted [] d h = refl
  exclude_dead-unlisted (m ∷ members) (n, a, d) h =
      grind (arith, n, h, exclude_dead-unlisted members d)

module _ (env : Env) (lib : Machinery) (start : List EtcdMember) where
  -- If the survivor lists the members as they are, with distinct ids other than 0, and at most one
  -- of them has a peer URL of the dead node, a forced removal that succeeds leaves all members but
  -- that one, and one that fails, by the listing or by the removal, leaves all.
  pub force_remove-remaining :
      (c : Connection) (survivor_ip dead_node_ip : String) (t : Trace)
      → ((messages : List (List EtcdMember))
          → lib.reply c survivor_ip (with_timeout env) Request.etcd_member_list t ≡ ok messages
          → all_members lib.hostname messages ≡ remaining start t.calls)
      → Distinct (remaining start t.calls)
      → count_if (is_dead lib.hostname dead_node_ip) (remaining start t.calls) ≤ 1
      → remaining start (etcd_force_remove_by_ip env lib c survivor_ip dead_node_ip t).1.calls
        ≡ expected lib.hostname dead_node_ip
            (etcd_force_remove_by_ip env lib c survivor_ip dead_node_ip t).0
            (remaining start t.calls)
  unfolding etcd_force_remove_by_ip report
  force_remove-remaining c survivor_ip dead_node_ip t faithful distinct one = grind (
    arith,
    faithful,
    find_etcd_member_id-first lib.hostname,
    without-first lib.hostname dead_node_ip (remaining start t.calls) distinct one,
    exclude_dead-unlisted lib.hostname dead_node_ip (remaining start t.calls) distinct,
  )
