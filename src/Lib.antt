-- ===== src/Lib.antt =====
-- The network simulator of the networking course, backend/app: from the topology document that a
-- learner draws to the packet that is delivered hop by hop, or not, and the trace that says why.
--
-- The parts and their files:
--   Prelude        tests, equality, lists, dictionaries, results that may be exceptions
--   Text, Ipv4     the texts and the classes of Python's `ipaddress` that the program uses
--   Devices        backend/app/models/enums.py (devices, cables, ports) and
--                  backend/app/services/device_catalog.py
--   Config         backend/app/schemas/device_config.py
--   Topology       backend/app/schemas/topology.py
--   Simulation.Trace       backend/app/services/simulation/trace.py
--   Simulation.Network     backend/app/services/simulation/network.py
--   Simulation.Forwarding  backend/app/services/simulation/forwarding.py
--   Simulation.Protocols   backend/app/services/simulation/protocols.py, and run_simulation of
--                  backend/app/api/v1/endpoints/simulation.py
--   Lab            backend/app/services/grading.py, backend/app/services/fault_injection.py, and the
--                  rules and faults of backend/app/schemas/lab.py
--   Cli            backend/app/services/cli/session.py, and of backend/app/services/cli/parsing.py
--                  `matches`, `resolve` and `parse_vlan_list`
--   Simulation.Samples, and the modules Examples
--                  small documents and networks, and the runs on them
--
-- `Network.__init__` builds a `Network` from a `TopologyDocument` with the ports of the catalogue;
-- a `Forwarder` walks a packet over it: `choose_egress` asks `lookup_route`, `resolve_arp` floods
-- `broadcast_domain`, `_traverse_switches` asks `flood_into` at each switch. A `Simulator` runs one
-- exchange over a new forwarder: ICMP, TCP, UDP and DNS over `deliver`, ARP over `resolve_arp`,
-- DHCP over `broadcast_domain`; `run_simulation` composes the construction with the exchange. A
-- `LabGrader` checks the rules of a lab on one network, with a new `Simulator` for each traffic
-- rule (`fresh`: only the network's routing cache is kept). The functions have the names of the
-- source, without leading underscores; a loop is a function of its own, and so is a branch that is
-- long.
--
-- State. A `Network` does not change after construction but for its routing cache. The routing
-- cache, the ARP cache and the events are the state `Run`, passed through the forwarder's steps
-- (`M A = Run → Result A × Run`): what was written before an exception stays written. Python's
-- dictionaries are association lists in insertion order. An exception is `raise` with its class.
-- The numbers are naturals: addresses are below 2 ^ 32 by their parser.
--
-- Loops. The `while` loops take fuel, and `raise diverged`, which is no exception of the program,
-- says that it ran out. Floods get a round for each queued port (`flood_fuel`), the search for
-- routing peers and the walk over switches one more round than there are devices, the search for
-- blocked links one for each entry its queue can get. `deliver` counts the rounds of its own limit.
--
-- Parameters. SHA-256, `str.upper`, `str.lower` and pydantic's `model_validate` are not in this
-- repository and are arguments of the definitions that use them; so are the order in which a set of
-- Python gives its elements (`order`) and the decimal digits of Unicode that `int` reads beyond those
-- of ASCII (`digit`).
--
-- Not modelled: positions, labels and the viewport of a document, pydantic's limits on single
-- fields, the score of a graded run in percent (a floating-point number), the commands of the
-- command line and the text of the running configuration, and the services, which are web,
-- database and mail.
pub mod Prelude
pub mod Text
pub mod Ipv4
pub mod Devices
pub mod Config
pub mod Topology
pub mod Simulation
pub mod Lab
pub mod Cli
