-- ===== src/Snoop/Routes.antt =====
-- `_parse_snoop_routes` and `_parse_snoop_mrouter_ports` of
-- scripts/lib/python/dn_base_mcast_snoop.py: the routes and ports of an update that are published.
pub mod Laws
use opx_nas_linux.Prelude.{
  String, Bool, true, false, Option, none, some, List, [], ◌∷◌, ◌≡◌, refl, ap, arith, ◌||◌, ◌&&◌,
  not, if◌then◌else◌, All, inl, inr, Bool-cases, Option-cases,
}
use Prim.{tt}
use mathlib.Core.Path.{subst}
use opx_nas_linux.Snoop.{is_in}

-- What is read of the VLAN: the ports under `untagged_ports_key` and `tagged_ports_key`, if any.
pub record VlanInfo : Type 0 where
  pub untagged_ports : Option (List String)
  pub tagged_ports : Option (List String)

abbrev pub in_ports : String → Option (List String) → Bool
in_ports if_name none = false
in_ports if_name (some ports) = is_in if_name ports

unfoldable pub is_intf_vlan_member : VlanInfo → String → Bool
is_intf_vlan_member vlan_info if_name =
    in_ports if_name vlan_info.untagged_ports || in_ports if_name vlan_info.tagged_ports

-- A group of an update; an address is what the converter of addresses is given.
pub record Group : Type 0 where
  pub group : Option String
  pub interface : Option String
  pub source : Option String

-- The attributes that are published for a group, under its key.
pub record Route : Type 0 where
  pub key : String
  pub interface : Option String
  pub address : String
  pub source : Option String

abbrev pub source_text : (String → String) → Option String → Option String
source_text address_text none = none
source_text address_text (some source) = some (address_text source)

-- The loop, with `oif_present`, on the converter of addresses (`_is_ip_addr`, ba_to_ipv4str and
-- ba_to_ipv6str); `none` is False.
unfoldable pub parse_groups :
    (String → String) → VlanInfo → Bool → Bool → List (String × Group) → Option (List Route)
unfolding is_intf_vlan_member
parse_groups address_text vlan_info is_delete oif_present [] = some []
parse_groups address_text vlan_info is_delete oif_present ((key, val) ∷ rest) =
    let skipped = parse_groups address_text vlan_info is_delete oif_present rest in
    let without_oif = parse_groups address_text vlan_info is_delete false rest in
    let route : String → Option String → Option (List Route) → Option (List Route) =
      λ group interface routes. elim routes [
        | none ↦ none
        | some rs ↦ some (
            record {
              key = key;
              interface = interface;
              address = address_text group;
              source = source_text address_text val.source;
            }
            ∷ rs)
      ] in
    elim val.group [
      | none ↦ skipped
      | some group ↦ elim val.interface [
        | none ↦ route group none without_oif
        | some interface ↦
            if not oif_present
            then route group none skipped
            else if is_intf_vlan_member vlan_info interface
            then route group (some interface) skipped
            else if is_delete
            then skipped
            else none
      ]
    ]

unfoldable pub parse_snoop_routes :
    (String → String) → VlanInfo → Bool → List (String × Group) → Option (List Route)
unfolding parse_groups
parse_snoop_routes address_text vlan_info is_delete groups =
    parse_groups address_text vlan_info is_delete true groups

-- `_parse_snoop_mrouter_ports`: the ports that are published. A deletion checks nothing.
unfoldable pub parse_snoop_mrouter_ports : VlanInfo → Bool → List String → Bool
unfolding is_intf_vlan_member
parse_snoop_mrouter_ports vlan_info is_delete [] = true
parse_snoop_mrouter_ports vlan_info is_delete (interface ∷ ports) =
    let rest = parse_snoop_mrouter_ports vlan_info is_delete ports in
    if is_intf_vlan_member vlan_info interface then rest else is_delete && rest
