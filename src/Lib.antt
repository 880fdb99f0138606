-- ===== src/Lib.antt =====
-- A verification library for PP3, a proxy platform: clients connect to a proxy access service,
-- which authenticates them, picks a device, and has a relay build the connection to the target.
--
-- Parts and files. A name in the code such as OnS5AuthInfo or xAuthLocalRecord is on_s5_auth_info
-- or LocalRecord here.
--   Prelude      lists, byte strings, 64-bit words, and tests on the native numbers
--   Xel          what the program assumes of the xel library, whose code is not in the repository:
--                one record of operations and laws for each class (xIndexedStorage, xList,
--                xTcpClientPool, xNetAddress, xStreamReader and xStreamWriter), and in
--                Xel/Instances implementations on which the examples run
--   Audit        src_xapp/ppp/lib_component/audit_service/audit_service.cpp: the collectors, their
--                connections, and the reports that go to them
--   Auth         src_xapp/ppp/lib_component/auth_local_service.cpp: accounts, blocking, reference
--                counts of the nodes that add up usage, and the reports of usage
--   Pa           src_xapp/ppp/lib_component/pa_service.cpp: a client's connection. Pa/Types has its
--                state and the effects of a handler, Pa/Socks, Pa/Http and Pa/HttpHeaders the data
--                processors, Pa/Packets the addresses in packets, Pa/Results what follows the
--                result of a future, Pa/Lifetime the lists and the end, Pa/Session all of it as
--                one connection
--   RequestMap   src_xapp/ppp/lib_component/request_mapping.cpp: requests without an answer
--   Relay        src_xapp/ppp/lib_component/relay_local_device_service.cpp: the local devices
--   RelayInfo    src_xapp/ppp/lib_component/relay/relay_info_observer.cpp: what a service knows of
--                the relays, from their heartbeats
--   AddressKey   src_xapp/ppp/lib_component/address_challenge/address_challenge.cpp: the key of an
--                address
--   DeviceEntry  src_xapp/s_device_entry: the relays that devices are sent to, fed by the observer of
--                RelayInfo and asked with the keys of AddressKey
--   Dns          src_xapp/ppp/lib_component/dns_local_service.cpp: the resolver. What its query
--                threads have taken is one list, whose requests finish in any order, with any
--                addresses
--   ServerList   the lists of servers: ServerList/Publisher for src_xapp/s_small_server_list/main.cpp,
--                ServerList/Downloader and ServerList/Client for small_server_list_downloader.cpp and
--                small_server_list_tcp_client.cpp in src_xapp/ppp/lib_component, and
--                ServerList/System for all of them, with the packets between them
--
-- State and effects. A handler is a function of the state, and of an Env where it asks a pool, a
-- socket or the clock; it returns the new state and the list of its effects in order: the data
-- that it posts, and its calls of the account service, the device locator and the relay. A
-- pointer to a future or to an object of a pool is its identifier, 0 for the null pointer. The
-- list that a connection is linked in is a field of the connection. A failed assertion and the
-- use of a null pointer are values (`none`, `aborted`).
--
-- Numbers are the native ones; uint64_t and size_t wrap (add64, sub64). Sizes of packets do not
-- reach 2^64 and are added as they are.
--
-- Fuel. Loops that pop a list take one round for each of its nodes and one for the end; loops over
-- header lines take one round more than the packet has bytes.
--
-- Not modelled: reading configuration and account files, threads, logging and ToString, sockets,
-- the programs around the components, the message broker, the region database. The other
-- components (the device manager, the relay dispatcher) are left out of this library.
mod Prelude
pub mod Xel
pub mod Audit
pub mod Auth
pub mod Pa
pub mod RequestMap
pub mod Relay
pub mod RelayInfo
pub mod AddressKey
pub mod DeviceEntry
pub mod Dns
pub mod ServerList
