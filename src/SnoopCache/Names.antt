-- ===== src/SnoopCache/Names.antt =====
-- Names of interfaces in scripts/lib/python/dn_base_mcast_snoop_utils.py: `_get_if_name` puts the tag of
-- a VLAN on the name of a port, `remove_ifname_tag` takes it off.
pub mod Laws
use Prim.Native.Char.{code}
use Prim.Native.String as Text
use opx_nas_linux.Prelude.{
  ℕ, String, Bool, true, false, Option, none, some, ◌&&◌, leb, nat_eq, if◌then◌else◌,
}
use opx_nas_linux.Snoop.Routes.{VlanInfo, in_ports}

-- if_name.rfind('.'): what stands before and after the last dot
unfoldable pub last_dot : String → Option (String × String)
last_dot Text.[] = none
last_dot (Text.◌∷◌ c s) = elim (last_dot s) [
  | some (before, after) ↦ some (Text.◌∷◌ c before, after)
  | none ↦ if nat_eq (code c) b'.' then some (Text.[], s) else none
]

abbrev pub all_digits : String → Bool
all_digits Text.[] = true
all_digits (Text.◌∷◌ c s) = (leb b'0' (code c) && leb (code c) b'9') && all_digits s

-- `isdigit` is false of the empty text.
unfoldable pub isdigit : String → Bool
isdigit Text.[] = false
isdigit (Text.◌∷◌ c s) = all_digits (Text.◌∷◌ c s)

unfoldable pub remove_ifname_tag : String → String
unfolding last_dot isdigit
remove_ifname_tag if_name = elim (last_dot if_name) [
  | none ↦ if_name
  | some (before, after) ↦ if isdigit after then before else if_name
]

-- `_get_if_name`, on str(vlan_id); `none` is False.
unfoldable pub get_if_name : VlanInfo → String → (vlan_id : String) → Option String
get_if_name vlan_info if_name vlan_id =
    if in_ports if_name vlan_info.untagged_ports
    then some if_name
    else if in_ports if_name vlan_info.tagged_ports
    then some (Text.◌++◌ if_name (Text.◌++◌ "." vlan_id))
    else none
