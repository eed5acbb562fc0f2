-- ===== src/Talos/Etcd.antt =====
-- `findEtcdMemberID` of internal/talos/client.go. The host of a peer URL is what url.Parse reads;
-- `none` is a URL that it refuses.
pub mod Laws
use yk_talos_management.Prelude.{
  ℕ, String, List, [], ◌∷◌, ◌==◌, string_eq, if◌then◌else◌, Option, none, some, Bool, true, false,
}

-- machineapi.EtcdMember
pub record EtcdMember : Type 0 where
  pub id : ℕ
  pub peer_urls : List String

module _ (hostname : String → Option String) where
  -- The loop over the peer URLs of a member.
  unfoldable pub has_host : List String → String → Bool
  has_host [] dead_node_ip = false
  has_host (url ∷ urls) dead_node_ip =
      let rest = has_host urls dead_node_ip in
      elim (hostname url) [ none ↦ rest | some host ↦ if host == dead_node_ip then true else rest ]

  -- The loop over the members of a message; `none` where none matches.
  unfoldable pub find_member : List EtcdMember → String → Option ℕ
  unfolding has_host
  find_member [] dead_node_ip = none
  find_member (m ∷ members) dead_node_ip =
      let rest = find_member members dead_node_ip in
      if has_host m.peer_urls dead_node_ip then some m.id else rest

  -- `findEtcdMemberID`; 0 where no member matches
  unfoldable pub find_etcd_member_id : List (List EtcdMember) → String → ℕ
  unfolding find_member
  find_etcd_member_id [] dead_node_ip = 0
  find_etcd_member_id (members ∷ messages) dead_node_ip =
      let rest = find_etcd_member_id messages dead_node_ip in
      elim (find_member members dead_node_ip) [ some id ↦ id | none ↦ rest ]
