-- ===== src/SnoopCache.antt =====
-- McastSnoopCacheMgr of scripts/lib/python/dn_base_mcast_snoop_utils.py: the mrouters and groups the
-- kernel was last seen to have, and the static mrouters that still have to be written to it.
pub mod Names
pub mod Sets
pub mod Info
pub mod Publish
pub mod Index
pub mod Indexed
pub mod Mdb
pub mod Polling
pub mod Search
pub mod Listener
pub mod Reachable
pub mod Static
use Prim.Native.String as Text
use opx_nas_linux.Prelude.{
  ℕ, String, Bool, true, false, Option, none, some, List, [], ◌∷◌, map, lookup, remove, eq_string,
  if◌then◌else◌,
}
use opx_nas_linux.Snoop.{Shell}
use opx_nas_linux.SnoopCache.Sets.{add, discard, difference, eq_pair}
use opx_nas_linux.SnoopCache.Search.{raw_str, search}
use opx_nas_linux.SnoopCache.Info.{
  McastRouterInfo, mcast_router_info, router_key, McastGroupInfo, group_key, Op, Item,
}
use opx_nas_linux.SnoopCache.Publish.{Feed, publish_event}
use opx_nas_linux.SnoopCache.Index.{remove_entries, add_entries}

pub record Cache : Type 0 where
  pub mrouter_set : List McastRouterInfo
  pub static_mrouter_set : List McastRouterInfo
  pub br_mrouter_map : List (String × List String)
  pub group_set : List McastGroupInfo
  pub br_group_map : List (String × List McastGroupInfo)
  pub feed : Feed

-- The sets that `get_igmp_snooping_route` reads from the kernel for the cache.
pub record Routes : Type 0 where
  pub mrouter : List McastRouterInfo
  pub group : List McastGroupInfo

-- An interface is put under its bridge by its name, a group by itself.
abbrev pub same_name : String → String
same_name if_name = if_name

abbrev pub same_group : McastGroupInfo → McastGroupInfo
same_group g = g

unfoldable pub update_static_mrouter_cache : McastRouterInfo → Cache → Cache
unfolding add
update_static_mrouter_cache new_set s = record s {
  static_mrouter_set = add router_key new_set s.static_mrouter_set;
}

unfoldable pub clear_static_mrouter_cache : McastRouterInfo → Cache → Cache
unfolding discard
clear_static_mrouter_cache old_set s = record s {
  static_mrouter_set = discard router_key (router_key old_set) s.static_mrouter_set;
}

-- the loop of `flush_cache` over the names under a bridge
unfoldable pub discard_names : String → List String → List McastRouterInfo → List McastRouterInfo
unfolding discard mcast_router_info
discard_names br_name [] mrouter_set = mrouter_set
discard_names br_name (if_name ∷ if_names) mrouter_set =
    discard_names br_name if_names
      (discard router_key (router_key (mcast_router_info br_name if_name none)) mrouter_set)

-- its loop over the groups
unfoldable pub discard_groups : List McastGroupInfo → List McastGroupInfo → List McastGroupInfo
unfolding discard
discard_groups [] group_set = group_set
discard_groups (group ∷ groups) group_set =
    discard_groups groups (discard group_key (group_key group) group_set)

unfoldable pub flush_mrouters : String → Cache → Cache
unfolding lookup remove discard_names
flush_mrouters br_name s = elim (lookup br_name s.br_mrouter_map) [
  | none ↦ s
  | some if_names ↦ record s {
    mrouter_set = discard_names br_name if_names s.mrouter_set;
    br_mrouter_map = remove br_name s.br_mrouter_map;
  }
]

unfoldable pub flush_groups : String → Cache → Cache
unfolding lookup remove discard_groups
flush_groups br_name s = elim (lookup br_name s.br_group_map) [
  | none ↦ s
  | some groups ↦ record s {
    group_set = discard_groups groups s.group_set;
    br_group_map = remove br_name s.br_group_map;
  }
]

unfoldable pub flush_cache : Option String → Cache → Cache
unfolding flush_mrouters flush_groups
flush_cache none s = record s {
  mrouter_set = [];
  br_mrouter_map = [];
  group_set = [];
  br_group_map = [];
}
flush_cache (some br_name) s = flush_groups br_name (flush_mrouters br_name s)

module _ (vlan_info : String → Option ℕ) where
  -- `update_cache_set` with `mc_group` false
  unfoldable pub update_mrouter_set : List McastRouterInfo → Cache → Cache
  unfolding difference publish_event remove_entries add_entries
  update_mrouter_set new_set s =
      let del_set = difference router_key s.mrouter_set new_set in
      let add_set = difference router_key new_set s.mrouter_set in
      let deleted = publish_event vlan_info (map Item.router del_set) Op.delete s.feed in
      let removed =
        remove_entries McastRouterInfo.br_name McastRouterInfo.if_name same_name del_set
          s.br_mrouter_map in
      let created = publish_event vlan_info (map Item.router add_set) Op.create deleted in
      record s {
        feed = created;
        br_mrouter_map =
            add_entries McastRouterInfo.br_name McastRouterInfo.if_name same_name add_set removed;
        mrouter_set = new_set;
      }

  -- `update_cache_set` with `mc_group` true
  unfoldable pub update_group_set : List McastGroupInfo → Cache → Cache
  unfolding difference publish_event remove_entries add_entries
  update_group_set new_set s =
      let del_set = difference group_key s.group_set new_set in
      let add_set = difference group_key new_set s.group_set in
      let deleted = publish_event vlan_info (map Item.group del_set) Op.delete s.feed in
      let removed =
        remove_entries McastGroupInfo.br_name same_group group_key del_set s.br_group_map in
      let created = publish_event vlan_info (map Item.group add_set) Op.create deleted in
      record s {
        feed = created;
        br_group_map = add_entries McastGroupInfo.br_name same_group group_key add_set removed;
        group_set = new_set;
      }

  -- `none` is that the kernel's routes cannot be read.
  unfoldable pub update_cache : Option Routes → Cache → Cache
  unfolding update_mrouter_set update_group_set
  update_cache mc_snoop_info s =
      let cleared = record s { feed = record { vlan_map = []; published = s.feed.published } } in
      elim mc_snoop_info [
        | none ↦ cleared
        | some routes ↦ update_group_set routes.group (update_mrouter_set routes.mrouter cleared)
      ]

-- The names that are found in the texts of the elements; an element without them is passed over.
unfoldable pub get_all_static_mrouter_cache : List McastRouterInfo → List (String × String)
unfolding search raw_str
get_all_static_mrouter_cache [] = []
get_all_static_mrouter_cache (elem ∷ elems) =
    let rest = get_all_static_mrouter_cache elems in
    elim (search (raw_str elem)) [ none ↦ rest | some names ↦ names ∷ rest ]

module _ (sh : Shell) where
  open sh use {State, update_file_system}

  -- the file of a port that tells the kernel whether a multicast router is behind it
  abbrev pub mrouter_path : (dev_name if_name : String) → String
  mrouter_path dev_name if_name =
      Text.◌++◌ "/sys/devices/virtual/net/"
        (Text.◌++◌ dev_name (Text.◌++◌ "/brif/" (Text.◌++◌ if_name "/multicast_router")))

  -- the loop of `apply_static_mrouter_configs`
  unfoldable pub apply_mrouters : List (String × String) → Cache → State → Cache × State
  unfolding discard mcast_router_info
  apply_mrouters [] s st = (s, st)
  apply_mrouters ((dev_name, if_name) ∷ mrouter_list) s st =
      let (written, st1) = update_file_system (mrouter_path dev_name if_name) 2 st in
      let applied = record s {
        static_mrouter_set =
            discard router_key (router_key (mcast_router_info dev_name if_name none))
              s.static_mrouter_set;
      } in
      apply_mrouters mrouter_list (if written then applied else s) st1

  unfoldable pub apply_static_mrouter_configs : Cache → State → Cache × State
  unfolding apply_mrouters get_all_static_mrouter_cache
  apply_static_mrouter_configs s st =
      apply_mrouters (get_all_static_mrouter_cache s.static_mrouter_set) s st
