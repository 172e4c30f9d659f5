-- ===== src/SnoopCache/Info.antt =====
-- McastRouterInfo and McastGroupInfo of scripts/lib/python/dn_base_mcast_snoop_utils.py, and the events
-- that are published for them.
use opx_nas_linux.Prelude.{ℕ, String, Bool, Option}
use opx_nas_linux.SnoopCache.Names.{remove_ifname_tag}

pub record McastRouterInfo : Type 0 where
  pub br_name : String
  pub raw_if_name : String
  pub if_name : String
  pub expire : Option String

unfoldable pub mcast_router_info : (br_name if_name : String) → Option String → McastRouterInfo
mcast_router_info br_name if_name expire = record {
  br_name = br_name;
  raw_if_name = if_name;
  if_name = remove_ifname_tag if_name;
  expire = expire;
}

-- what `__eq__` compares
abbrev pub router_key : McastRouterInfo → String × String
router_key m = (m.br_name, m.if_name)

-- `grp_ip` is what ipv4str_to_ba or ipv6str_to_ba makes of the address.
pub record McastGroupInfo : Type 0 where
  pub br_name : String
  pub grp_ip_str : String
  pub grp_ip : String
  pub if_name : String
  pub is_igmp : Bool
  pub expire : Option String

-- The first argument is the two converters, of an address of IPv4 if it is given true.
unfoldable pub mcast_group_info :
    (Bool → String → String)
    → (br_name grp_ip if_name : String) → Bool
    → Option String
    → McastGroupInfo
mcast_group_info str_to_ba br_name grp_ip if_name is_igmp expire = record {
  br_name = br_name;
  grp_ip_str = grp_ip;
  grp_ip = str_to_ba is_igmp grp_ip;
  if_name = remove_ifname_tag if_name;
  is_igmp = is_igmp;
  expire = expire;
}

abbrev pub group_key : McastGroupInfo → String × (String × String)
group_key g = (g.br_name, (g.grp_ip, g.if_name))

pub data Op : Type 0 where
  create delete : Op

pub data Item : Type 0 where
  router : McastRouterInfo → Item
  group : McastGroupInfo → Item

abbrev pub item_br_name : Item → String
item_br_name (Item.router m) = m.br_name
item_br_name (Item.group g) = g.br_name

-- `evt_data`; the events of mrouters are those of IGMP.
pub data EventData : Type 0 where
  mrouter_interface : (vlan_id : ℕ) (if_name : String) → EventData
  group_interface : (vlan_id : ℕ) (interface address : String) → EventData

pub data Event : Type 0 where
  igmp mld : EventData → Op → Event
