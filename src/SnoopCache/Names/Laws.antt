-- ===== src/SnoopCache/Names/Laws.antt =====
-- The tag of a VLAN on the name of a port, put on and taken off.
use Prim.Native.String as Text
use Prim.Native.String.append
use opx_nas_linux.Prelude.{String, true, none, some, ◌≡◌, refl, arith}
use opx_nas_linux.Snoop.Routes.{VlanInfo}
use opx_nas_linux.SnoopCache.Names.{last_dot, all_digits, isdigit, remove_ifname_tag, get_if_name}

last_dot-digits : (s : String) → all_digits s ≡ true → last_dot s ≡ none
unfolding last_dot
last_dot-digits Text.[] h = refl
last_dot-digits (Text.◌∷◌ c s) h = ground (arith, last_dot-digits s)

last_dot-append :
    (s vlan_id : String)
    → all_digits vlan_id ≡ true
    → last_dot (Text.◌++◌ s (Text.◌++◌ "." vlan_id)) ≡ some (s, vlan_id)
unfolding last_dot
last_dot-append Text.[] vlan_id h =
    rw append.nil (rw (append.cons, append.nil, last_dot-digits vlan_id h) refl)
last_dot-append (Text.◌∷◌ c s) vlan_id h =
    rw append.cons (ground (arith, last_dot-append s vlan_id h))

isdigit-all_digits : (s : String) → isdigit s ≡ true → all_digits s ≡ true
unfolding isdigit
isdigit-all_digits Text.[] h = ground arith
isdigit-all_digits (Text.◌∷◌ c s) h = h

pub remove_ifname_tag-append :
    (if_name vlan_id : String)
    → isdigit vlan_id ≡ true
    → remove_ifname_tag (Text.◌++◌ if_name (Text.◌++◌ "." vlan_id)) ≡ if_name
unfolding remove_ifname_tag
remove_ifname_tag-append if_name vlan_id h =
    ground (arith, last_dot-append if_name vlan_id (isdigit-all_digits vlan_id h), h)

-- The name that is made for a tagged or untagged port of a VLAN loses its tag again, when the id of the
-- VLAN is written with digits and the name of the port itself has no tag.
pub remove_ifname_tag-get_if_name :
    (vlan_info : VlanInfo) (if_name vlan_id name : String)
    → isdigit vlan_id ≡ true
    → remove_ifname_tag if_name ≡ if_name
    → get_if_name vlan_info if_name vlan_id ≡ some name
    → remove_ifname_tag name ≡ if_name
unfolding get_if_name
remove_ifname_tag-get_if_name vlan_info if_name vlan_id name h untagged at =
    ground (arith, remove_ifname_tag-append if_name vlan_id h)
