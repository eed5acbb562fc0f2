-- ===== src/Talos/Etcd/Laws.antt =====
-- The member that findEtcdMemberID finds.
use yk_talos_management.Prelude.{
  ℕ, String, List, [], ◌∷◌, ◌++◌, ◌==◌, string_eq, if◌then◌else◌, Option, none, some, Bool, false,
  any, ◌≡◌, refl, arith,
}
use yk_talos_management.Talos.Etcd.{EtcdMember, has_host, find_member, find_etcd_member_id}

module _ (hostname : String → Option String) where
  -- Whether a peer URL names the node.
  abbrev pub names_host : String → String → Bool
  names_host dead_node_ip url = elim (hostname url) [
    | none ↦ false
    | some host ↦ host == dead_node_ip
  ]

  -- The members of all messages, in order.
  abbrev pub all_members : List (List EtcdMember) → List EtcdMember
  all_members [] = []
  all_members (members ∷ messages) = members ++ all_members messages

  -- The id of the first member with a peer URL of the node, 0 without one.
  abbrev pub first_id : List EtcdMember → String → ℕ
  first_id [] dead_node_ip = 0
  first_id (m ∷ members) dead_node_ip =
      if any (names_host dead_node_ip) m.peer_urls then m.id else first_id members dead_node_ip

  has_host-any :
      (urls : List String) (ip : String) → has_host hostname urls ip ≡ any (names_host ip) urls
  unfolding has_host
  has_host-any [] ip = refl
  has_host-any (url ∷ urls) ip = ground (arith, has_host-any urls ip)

  abbrev or_else : Option ℕ → ℕ → ℕ
  or_else none n = n
  or_else (some m) n = m

  find_member-append :
      (members rest : List EtcdMember) (ip : String)
      → or_else (find_member hostname members ip) (first_id rest ip) ≡ first_id (members ++ rest) ip
  unfolding find_member
  find_member-append [] rest ip = refl
  find_member-append (m ∷ members) rest ip =
      ground (arith, has_host-any m.peer_urls ip, find_member-append members rest ip)

  -- Among the members of all messages, in order, the id is that of the first one with a peer URL
  -- whose host is the address of the dead node, and 0 if there is none.
  pub find_etcd_member_id-first :
      (messages : List (List EtcdMember)) (dead_node_ip : String)
      → find_etcd_member_id hostname messages dead_node_ip
        ≡ first_id (all_members messages) dead_node_ip
  unfolding find_etcd_member_id
  find_etcd_member_id-first [] ip = refl
  find_etcd_member_id-first (members ∷ messages) ip = ground (
    arith,
    find_member-append members (all_members messages) ip,
    find_etcd_member_id-first messages ip,
  )
