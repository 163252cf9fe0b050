-- ===== src/Simulation/Network/Subnets.antt =====
-- `SimInterface.network`: the subnet of an interface.
use networkbasicswebsite.Prelude.{◌≡◌, ℕ, String, true, Option, none, some, arith, ok, >>=-eq-ok}
use networkbasicswebsite.Text.{present}
use networkbasicswebsite.Ipv4.{Ipv4Network, parse_address, parse_network, contains}
use networkbasicswebsite.Ipv4.Laws.{contains-parse_network}
use networkbasicswebsite.Simulation.Network.Types.{SimInterface, subnet, network}

subnet-contains :
    (address : String) (mask : Option String) (addr : ℕ) (n : Ipv4Network)
    → parse_address address ≡ ok addr
    → subnet (some address) mask ≡ ok (some n)
    → contains n addr ≡ true
subnet-contains address none addr n h k = cc
subnet-contains address (some mask) addr n h k =
    let (m, e, f) = >>=-eq-ok (parse_network address mask) _ k in
    let same : m ≡ n = ground (arith, f) in
    contains-parse_network address mask addr n h (rw same at e)

-- The network of an interface that has one contains the address of the interface.
pub network-contains :
    (port : SimInterface) (address : String) (addr : ℕ) (n : Ipv4Network)
    → present port.ip ≡ some address
    → parse_address address ≡ ok addr
    → network port ≡ ok (some n)
    → contains n addr ≡ true
unfolding network
network-contains port address addr n shown h k =
    subnet-contains address (present port.mask) addr n h (rw shown at k)
