-- ===== src/SnoopCache/Mdb.antt =====
-- `get_igmp_snooping_route` of scripts/lib/python/dn_base_mcast_snoop_utils.py: what `bridge mdb show`
-- prints, as the two sets of the cache and as the lists that a request for the state is answered with.
pub mod Laws
pub mod Routers
use opx_nas_linux.Prelude.{
  ℕ, String, Bool, true, false, Option, none, some, List, [], ◌∷◌, ◌++◌, ◌==◌, ◌||◌, ◌&&◌, not,
  lookup, put, eq_string, from_some, if◌then◌else◌,
}
use opx_nas_linux.SnoopCache.{Routes}
use opx_nas_linux.SnoopCache.Sets.{add, eq_pair}
use opx_nas_linux.SnoopCache.Info.{
  McastRouterInfo, mcast_router_info, router_key, McastGroupInfo, mcast_group_info, group_key,
}

-- What the regular expressions find in a line of an entry; `exp_time` is what the second one finds.
pub record Entry : Type 0 where
  pub dev_name : String
  pub if_name : String
  pub grp_ip : String
  pub rt_type : String
  pub exp_time : Option String

-- A line of the output by its first token; `none` is that the regular expression does not match. A
-- line of mrouters has the name of its bridge and the tokens after the colon.
pub data Line : Type 0 where
  short : Line
  dev : Option Entry → Line
  router : Option (String × List String) → Line
  unknown : Line

-- The functions of cps_utils and bytearray_utils on addresses, whether `float` takes a text, and
-- int(float(text)) where that does not raise.
pub record Texts : Type 0 where
  pub is_ipv4_addr : String → Bool
  pub is_ipv6_addr : String → Bool
  pub str_to_ba : Bool → String → String
  pub is_float : String → Bool
  pub seconds : String → Option ℕ

pub data IpType : Type 0 where
  ipv4 ipv6 all : IpType

-- The interfaces of a line of mrouters, with the time and the type.
pub record Ports : Type 0 where
  pub if_list : List String
  pub exp_time : Option String
  pub rt_type : String

module _ (t : Texts) where
  unfoldable pub router_ports : List String → Ports
  router_ports (if_name ∷ exp_time ∷ rt_type ∷ []) =
      if (rt_type == "temp" || rt_type == "permanent") && t.is_float exp_time
      then record { if_list = if_name ∷ []; exp_time = some exp_time; rt_type = rt_type }
      else record {
        if_list = if_name ∷ exp_time ∷ rt_type ∷ [];
        exp_time = none;
        rt_type = "permanent";
      }
  router_ports mr_tokens = record { if_list = mr_tokens; exp_time = none; rt_type = "permanent" }

  -- `is_igmp` of a group, where the group is one of the addresses that are asked for.
  unfoldable pub group_is_igmp : IpType → String → Option Bool
  group_is_igmp IpType.ipv4 grp_ip = if t.is_ipv4_addr grp_ip then some true else none
  group_is_igmp IpType.ipv6 grp_ip = if t.is_ipv6_addr grp_ip then some false else none
  group_is_igmp IpType.all grp_ip =
      if t.is_ipv4_addr grp_ip
      then some true
      else if t.is_ipv6_addr grp_ip
      then some false
      else none

  abbrev pub expire_of : Option String → Option ℕ
  expire_of none = some 0
  expire_of (some exp_time) = t.seconds exp_time

-- br_name is not None and br_name != dev_name
abbrev pub other_bridge : Option String → String → Bool
other_bridge none dev_name = false
other_bridge (some br_name) dev_name = not (br_name == dev_name)

-- An attribute of a bridge that no line has is missing; the groups are numbered in their order.
pub record StaticGroup : Type 0 where
  pub group : String
  pub interface : String

pub record LearntGroup : Type 0 where
  pub address : String
  pub interface : String
  pub expire : ℕ

pub record Attrs : Type 0 where
  pub static_groups : List StaticGroup
  pub groups : List LearntGroup
  pub static_mrouters : Option (List String)
  pub mrouters : Option (List String)

abbrev pub no_attrs : Attrs
no_attrs = record { static_groups = []; groups = []; static_mrouters = none; mrouters = none }

abbrev pub extend : Option (List String) → List String → Option (List String)
extend none if_list = some if_list
extend (some ports) if_list = some (ports ++ if_list)

-- the loop over the interfaces of a line of mrouters
unfoldable pub add_routers :
    String → List String → Option String → List McastRouterInfo → List McastRouterInfo
unfolding add mcast_router_info
add_routers dev_name [] exp_time mrouter = mrouter
add_routers dev_name (if_name ∷ if_list) exp_time mrouter =
    add_routers dev_name if_list exp_time
      (add router_key (mcast_router_info dev_name if_name exp_time) mrouter)

unfoldable pub list_routers : Ports → Attrs → Attrs
list_routers ports attrs =
    if ports.rt_type == "permanent"
    then record attrs { static_mrouters = extend attrs.static_mrouters ports.if_list }
    else record attrs { mrouters = extend attrs.mrouters ports.if_list }

module _ (t : Texts) where
  unfoldable pub list_group : Entry → Attrs → Option Attrs
  list_group e attrs =
      if e.rt_type == "permanent"
      then some (record attrs {
        static_groups =
            attrs.static_groups ++ (record { group = e.grp_ip; interface = e.if_name } ∷ []);
      })
      else elim (expire_of t e.exp_time) [
        | none ↦ none
        | some expire ↦ some (record attrs {
          groups =
              attrs.groups
              ++ (record { address = e.grp_ip; interface = e.if_name; expire = expire } ∷ []);
        })
      ]

module _ (t : Texts) (ip_type : IpType) (br_name : Option String) where
  -- A line with `cache_update`; `none` is that the whole output is given up.
  unfoldable pub cache_line : Line → Routes → Option Routes
  unfolding router_ports group_is_igmp add_routers mcast_group_info
  cache_line Line.short s = some s
  cache_line Line.unknown s = none
  cache_line (Line.dev none) s = none
  cache_line (Line.router none) s = none
  cache_line (Line.dev (some e)) s =
      if other_bridge br_name e.dev_name then some s else elim (group_is_igmp t ip_type e.grp_ip) [
        | none ↦ some s
        | some is_igmp ↦
            let group =
              mcast_group_info t.str_to_ba e.dev_name e.grp_ip e.if_name is_igmp e.exp_time in
            some (record s { group = add group_key group s.group })
      ]
  cache_line (Line.router (some (dev_name, mr_tokens))) s =
      let ports = router_ports t mr_tokens in
      if other_bridge br_name dev_name
      then some s
      else some (record s { mrouter = add_routers dev_name ports.if_list ports.exp_time s.mrouter })

  unfoldable pub cache_lines : List Line → Routes → Option Routes
  unfolding cache_line
  cache_lines [] s = some s
  cache_lines (line ∷ cmd_response) s = elim (cache_line line s) [
    | none ↦ none
    | some s1 ↦ cache_lines cmd_response s1
  ]

  -- A line without `cache_update`, on the bridges so far. A bridge is entered before its group is
  -- looked at. `none` is that the output is given up, or that `float` raises.
  unfoldable pub list_line : Line → List (String × Attrs) → Option (List (String × Attrs))
  unfolding router_ports group_is_igmp list_group list_routers lookup put
  list_line Line.short ret_val = some ret_val
  list_line Line.unknown ret_val = none
  list_line (Line.dev none) ret_val = none
  list_line (Line.router none) ret_val = none
  list_line (Line.dev (some e)) ret_val =
      let attrs = from_some no_attrs (lookup e.dev_name ret_val) in
      if other_bridge br_name e.dev_name
      then some ret_val
      else elim (group_is_igmp t ip_type e.grp_ip) [
        | none ↦ some (put e.dev_name attrs ret_val)
        | some is_igmp ↦ elim (list_group t e attrs) [
          | none ↦ none
          | some listed ↦ some (put e.dev_name listed ret_val)
        ]
      ]
  list_line (Line.router (some (dev_name, mr_tokens))) ret_val =
      let attrs = from_some no_attrs (lookup dev_name ret_val) in
      if other_bridge br_name dev_name
      then some ret_val
      else some (put dev_name (list_routers (router_ports t mr_tokens) attrs) ret_val)

  unfoldable pub list_lines : List Line → List (String × Attrs) → Option (List (String × Attrs))
  unfolding list_line
  list_lines [] ret_val = some ret_val
  list_lines (line ∷ cmd_response) ret_val = elim (list_line line ret_val) [
    | none ↦ none
    | some ret_val1 ↦ list_lines cmd_response ret_val1
  ]
