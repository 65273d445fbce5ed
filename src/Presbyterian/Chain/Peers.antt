-- ===== src/Presbyterian/Chain/Peers.antt =====
-- presbyterian/bpinfo.go and `Find` of proto/servers.go: the list of the main chain's servers.
use go_crawling_bazaar.Base.{
  ℕ, suc, ◌%◌, Bool, Option, none, some, List, [], ◌∷◌, String, string_key, ◌==◌, length, get_elem?,
  if◌then◌else◌,
}
use go_crawling_bazaar.Word.{u32_mod}
use go_crawling_bazaar.Exec.{Outcome, ok, err}
use go_crawling_bazaar.Presbyterian.Env.{Error, local_node_not_found}

-- The letter of `role`: follower, leader, API node.
pub data PbRole : Type 0 where
  follower leader api : PbRole

pub record PresbyterianInfo : Type 0 where
  pub rank : ℕ
  pub total : ℕ
  pub role : PbRole
  pub node_id : String

-- proto.Peers, what is read of it.
pub record Peers : Type 0 where
  pub leader : String
  pub servers : List String

-- The loop of Find from the index `i`.
unfoldable pub find_from : String → ℕ → List String → Option ℕ
find_from key i [] = none
find_from key i (s ∷ ss) = let rest = find_from key (suc i) ss in if key == s then some i else rest

-- Find; the index is an int32 in the source.
unfoldable pub find : Peers → String → Option ℕ
unfolding find_from
find p key = find_from key 0 p.servers

-- The loop over the servers, from the index `i`.
unfoldable pub infos_from : String → ℕ → ℕ → List String → List PresbyterianInfo
infos_from lead total i [] = []
infos_from lead total i (v ∷ vs) =
    record {
      rank = i % u32_mod;
      total = total % u32_mod;
      role = if v == lead then PbRole.leader else follower;
      node_id = v;
    }
    ∷ infos_from lead total (suc i) vs

-- buildPresbyterianInfos
unfoldable pub build_presbyterian_infos :
    String → Peers → Bool → Outcome Error (PresbyterianInfo × List PresbyterianInfo)
unfolding infos_from find
build_presbyterian_infos local_id peers is_api_node =
    let total = length peers.servers in
    let infos = infos_from peers.leader total 0 peers.servers in
    if is_api_node
    then ok (record { rank = 0; total = total % u32_mod; role = api; node_id = local_id }, infos)
    else elim (find peers local_id) [
      | none ↦ err local_node_not_found
      | some index ↦ elim (get_elem? infos index) [
        | none ↦ Outcome.panic
        | some info ↦ ok (info, infos)
      ]
    ]

-- getRemotePBInfos
unfoldable pub get_remote_pb_infos :
    PresbyterianInfo → List PresbyterianInfo → List PresbyterianInfo
get_remote_pb_infos local [] = []
get_remote_pb_infos local (i ∷ is) =
    let rest = get_remote_pb_infos local is in if i.node_id == local.node_id then rest else i ∷ rest
