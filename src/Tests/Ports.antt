-- ===== src/Tests/Ports.antt =====
-- Examples of `PrivatePorts`.
use opx_nas_linux.Prelude.{
  ◌≤◌, ◌<◌, false, some, [], ◌∷◌, ◌≡◌, refl, arith, lookup, ◌==◌, if◌then◌else◌,
}
use opx_nas_linux.IdGenerator.{contains}
use opx_nas_linux.Rule.{Af, Proto}
use opx_nas_linux.PrivatePorts.{Alias, PortMap, eq_alias, values, add_port, pop_port}
use opx_nas_linux.PrivatePorts.Unique.{IsValid, add_port_lem, add_port-IsValid, pop_port-IsValid}

abbrev ntp : Alias
ntp = record {
  vrf_name = "blue";
  af = Af.inet;
  public_ip = some (10 ∷ 0 ∷ 0 ∷ 1 ∷ []);
  protocol = some Proto.udp;
  public_port = some 123;
}

abbrev dns : Alias
dns = record ntp { public_port = some 53 }

-- The name server has the first private port.
abbrev dns_port : PortMap
dns_port = (dns, 62000) ∷ []

ntp_port : (add_port ntp dns_port).0 ≡ some 62001
unfolding add_port lookup
ntp_port = refl

add_port_lem_example :
    (62000 ≤ 62001)
    × (62001 < 65000)
    × (contains 62001 (values dns_port) ≡ false)
    × ((b : Alias)
        → lookup b (add_port ntp dns_port).1 ≡ (if ntp == b then some 62001 else lookup b dns_port))
add_port_lem_example = add_port_lem ntp dns_port ntp_port

empty-IsValid : IsValid []
unfolding lookup
empty-IsValid = record {
  in_range = λ a port h. ground (arith, h);
  unique = λ a b port h k. ground (arith, h);
}

dns_given : PortMap
dns_given = (add_port dns []).1

add_port-IsValid_example : IsValid (add_port dns []).1
add_port-IsValid_example = add_port-IsValid dns [] empty-IsValid

dns_given-IsValid : IsValid dns_given
unfolding dns_given
dns_given-IsValid = add_port-IsValid dns [] empty-IsValid

pop_port-IsValid_example : IsValid (pop_port dns dns_given).1
pop_port-IsValid_example = pop_port-IsValid dns dns_given dns_given-IsValid
