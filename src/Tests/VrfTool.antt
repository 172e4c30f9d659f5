-- ===== src/Tests/VrfTool.antt =====
-- Examples of the veth pairs between VRFs.
use opx_nas_linux.Prelude.{
  String, Bool, true, false, none, some, List, [], ◌∷◌, ◌≡◌, ◌≢◌, refl, arith, lookup, eq_string,
}
use opx_nas_linux.Rule.Incoming.{is_some}
use opx_nas_linux.SnoopCache.Sets.{eq_pair}
use opx_nas_linux.VrfTool.{Host, Vrfs}
use opx_nas_linux.VrfTool.Nat.{setup_rules}
use opx_nas_linux.VrfTool.Subnets.{ip_svcs_subnet_setup, veth_ip_get}
use opx_nas_linux.VrfTool.Subnets.Laws.{IsValid}
use opx_nas_linux.VrfTool.Subnets.Setup.{ip_svcs_subnet_setup-IsValid, ip_svcs_subnet_setup_again}
use opx_nas_linux.VrfTool.Subnets.BothEnds.{veth_ip_get_both}
use opx_nas_linux.VrfTool.Interfaces.{Macs, IntfReply, process_vrf_intf_config}
use opx_nas_linux.VrfTool.Interfaces.Laws.{IsAnswer, process_vrf_intf_config_lem}
use opx_nas_linux.VrfTool.Sources.{src_ip_key, process_src_ip_config}
use opx_nas_linux.VrfTool.Sources.Laws.{process_src_ip_config_lem}
use opx_nas_linux.VrfTool.Namespaces.{process_vrf_config}
use opx_nas_linux.VrfTool.Namespaces.Laws.{process_vrf_config_delete}

-- A host on which every command fails or none does, as its state says; the numbers that occur are written
-- with stars.
abbrev some_host : Host
some_host = record {
  State = Bool;
  run_command = λ cmd ok. (ok, ok);
  response = λ ok. "7: e1: <BROADCAST,UP>" ∷ "    link/ether 02:00:00:00:00:01" ∷ [];
  str = λ n. "*";
  add_ip_addr = λ ip if_name af vrf ok. ok;
  del_ip_addr = λ ip if_name vrf ok. ok;
  addresses = λ vrf ok. ((false, "10.0.0.1") ∷ []) ∷ [];
  symlink = λ target path ok. (ok, ok);
  unlink = λ path ok. (ok, ok);
  makedirs = λ path ok. (ok, ok);
  rmtree = λ path ok. (ok, ok);
  igmp_limits = λ ok. (some "50", none);
  is_internal_ip6 = λ ip. false;
  is_link_local_ip6 = λ ip. false;
}

abbrev programs : List String
programs = "iptables" ∷ "ip6tables" ∷ []

abbrev protocols : List String
protocols = "tcp" ∷ "udp" ∷ []

-- The management VRF, without a veth pair.
abbrev mgmt : Vrfs
mgmt = record {
  vrf_name_to_id = ("default", 0) ∷ ("management", 1024) ∷ [];
  vrf_sub_net_map = [];
  vrf_src_ip_map = [];
  vrf_ip_service_ip_addr = [];
}

mgmt-IsValid : IsValid mgmt.vrf_sub_net_map
unfolding lookup
mgmt-IsValid = record {
  in_range = λ key val at. ground (arith, at);
  unique = λ a b val at bt. absurd (ground (arith, at));
}

ip_svcs_subnet_setup-IsValid_example :
    IsValid
      (ip_svcs_subnet_setup some_host programs protocols true "management" "default" mgmt
        true).0.1.vrf_sub_net_map
ip_svcs_subnet_setup-IsValid_example =
    ip_svcs_subnet_setup-IsValid some_host programs protocols true "management" "default" mgmt true
      mgmt-IsValid

-- The first addition fails, since no command succeeds; the second one answers True.
first_fails :
    (ip_svcs_subnet_setup some_host programs protocols true "management" "default" mgmt false).0.0
    ≡ (false, some 100)
unfolding ip_svcs_subnet_setup
first_fails = refl

ip_svcs_subnet_setup_again_example :
    (let first =
        ip_svcs_subnet_setup some_host programs protocols true "management" "default" mgmt false in
      let ruled = setup_rules some_host true "management" "default" first.0.1 first.1 in
      ip_svcs_subnet_setup some_host programs protocols true "management" "default" first.0.1
        first.1
      ≡ (((true, some 100), ruled.0), ruled.1))
unfolding ip_svcs_subnet_setup
ip_svcs_subnet_setup_again_example =
    ip_svcs_subnet_setup_again some_host programs protocols "management" "default" mgmt false 100
      refl

abbrev mgmt_end : String × String
mgmt_end = ("127.*.100.1", "fda5:74c8:b79e:4:*::1")

management_is_other : ◌≢◌ {A = String} "management" "default"
management_is_other = ground (arith, eq_string.same_iff "management" "default")

veth_ip_get_both_example :
    (let got = veth_ip_get some_host programs protocols "management" "default" false mgmt true in
      (veth_ip_get some_host programs protocols "default" "management" true got.0.1 got.1).0.0)
    ≡ some mgmt_end
unfolding veth_ip_get lookup
veth_ip_get_both_example =
    veth_ip_get_both some_host programs protocols "management" "default" false mgmt true mgmt_end
      management_is_other refl refl

-- The management VRF with its veth pair to the default one.
abbrev mgmt_pair : Vrfs
mgmt_pair = record mgmt { vrf_sub_net_map = (("management", "default"), 100) ∷ [] }

-- The deletion of the last VRF takes the default one with it.
no_vrf_left :
    (process_vrf_config some_host programs protocols false "management" 1024 mgmt_pair
      true).0.1.vrf_name_to_id
    ≡ []
unfolding process_vrf_config
no_vrf_left = refl

process_vrf_config_delete_example :
    lookup
      ("management", "default")
      (process_vrf_config some_host programs protocols false "management" 1024 mgmt_pair
        true).0.1.vrf_sub_net_map
    ≡ none
unfolding process_vrf_config
process_vrf_config_delete_example =
    process_vrf_config_delete some_host programs protocols "management" 1024 mgmt_pair true
      ("management", "default") refl refl

abbrev some_macs : Macs
some_macs = record { management = "m"; virtual_network = "n"; routing = "r" }

-- The interface on top of e1 in a data VRF.
abbrev bound_router : IntfReply
bound_router = record { ok = true; if_name = "v-e1"; if_index = 7; v_mac_str = some "r" }

-- In the default VRF the MAC address is the one that `ip` shows.
bound_default :
    (process_vrf_intf_config some_host some_macs true "e1" "default" "" mgmt true).0
    ≡ some
        (record { ok = true; if_name = "e1"; if_index = 7; v_mac_str = some "02:00:00:00:00:01" })
unfolding process_vrf_intf_config
bound_default = refl

process_vrf_intf_config_lem_example : IsAnswer "v-e1" true bound_router
unfolding process_vrf_intf_config
process_vrf_intf_config_lem_example =
    process_vrf_intf_config_lem some_host some_macs true "e1" "blue" "" mgmt true bound_router refl
      refl

process_src_ip_config_lem_example :
    is_some (
      lookup
        (src_ip_key "management" "ipv4" "10.0.0.1")
        (process_src_ip_config some_host "management" true "ipv4" "10.0.0.1" mgmt_pair
          true).0.1.vrf_src_ip_map)
    ≡ true
process_src_ip_config_lem_example =
    process_src_ip_config_lem some_host "management" true "ipv4" "10.0.0.1" mgmt_pair true
      (src_ip_key "management" "ipv4" "10.0.0.1")
