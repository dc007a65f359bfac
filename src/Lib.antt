-- ===== src/Lib.antt =====
-- The node network manager of Oakestra (node-net-manager).
--
-- The manager runs on each worker node. Containers send packets to service addresses, which stand
-- for a service and not for a place. The proxy tunnel looks such an address up, picks an instance,
-- keeps the choice for the flow, rewrites the packet and sends it to the node of the instance; on
-- the way back it rewrites the reply. Everything it knows of the services is in the translation
-- table of the environment.
--
-- The parts and their files:
--   Net          `net.IP` of the standard library as far as the program uses it.
--   Table        node-net-manager/TableEntryCache/serviceTranslationTable.go; Table.Bag is its
--                abstract view.
--   ProxyCache   node-net-manager/proxy/proxyCache.go.
--   Packets      node-net-manager/proxy/iputils and decodePacket, packetToByte of ProxyTunnel.go;
--                Packets.Serialize has the choice between TCP and UDP of SerializePacket.
--   Tunnel       node-net-manager/proxy/ProxyTunnel.go: outgoingProxy, ingoingProxy and what they
--                call; Tunnel.Remote is forward, createUDPChannel and one round of outgoingMessage
--                and ingoingMessage; Tunnel.Loops has the goroutines and channels of both
--                directions; Tunnel.Setup is proxy/ProxySetup.go.
--   Network      node-net-manager/network/NetUtils.go: the next address of each IP
--                version; Network.Hash is NameUniqueHash and Network.Interfaces the default route
--                and the address of the node. Network.Ports is ManageContainerPorts of network/Nat.go,
--                Network.Filter the fixed rules of that file, and network/iptables.go.
--   Env          node-net-manager/env/EnvironmentManager.go: the environment and its pools of
--                addresses; Env.Allocation has the accounts of the addresses. Env.Deployment is
--                env/ContainerNetDeployment.go, Env.Unikernel env/UnikernelNetDeployment.go. Env.Entries
--                is what the environment does with its translation table, and Env.Directory the
--                environment as the interface that the tunnel takes. Env.Deployed is IsServiceDeployed.
--                Env.Kernel is what the environment
--                does with links, routes and namespaces, down to the calls of netlink and netns.
--                Env.Setup makes the environment from the subnetwork that the cluster assigns.
--   Mqtt         node-net-manager/mqtt/Tablequery.go, the requests that wait for an answer, and
--                node-net-manager/env/tableQueryRequests.go, the translation of an answer;
--                Mqtt.Queries has a whole query with its wait and the handler of an answer as steps.
--                Mqtt.Interests is node-net-manager/mqtt/MqttJobUpdates.go, the interests in jobs and
--                their goroutines, as a step relation, and Mqtt.Client is mqtt/MqttMainClient.go.
--   Events       node-net-manager/events/EventManager.go.
--   Handlers     node-net-manager/handlers: the executor of deployment tasks and the requests that
--                deploy and undeploy containers and unikernels, and in Handlers.Dispatcher the managers
--                with their routes.
--   Server       node-net-manager/server/server.go: the registration of the node and the updates of
--                its address; Server.Listen has the two stages of the server.
--   Cmd          node-net-manager/cmd/logs.go, the command that follows the log file.
--   Utils        node-net-manager/utils/SliceApi.go.
--   Base         numbers, byte strings, slices and panics; Tests has runs at concrete inputs.
--
-- Conventions. A Go string is the list of its bytes, an `int` a sign and a size, a slice a list. A
-- method on a shared structure is one step, because the code holds the lock of the structure in all
-- of it; it takes the structure and returns the new one. An `error` is an optional value. An index
-- out of range or a nil dereference is the outcome `panic`, and so is a fatal log line, which ends
-- the process; Server, where net/http recovers the panics of a handler, tells the two apart. Other log
-- lines are left out. The time, the
-- random numbers, gopacket, the sockets and the environment that the tunnel is given are parameters
-- (records of operations); what the proofs need of them are fields or named hypotheses.
--
-- Bounds and fuel. `forward` counts its attempts down from 11, which is the code's own limit of
-- ten retries. The loop of RemoveByJobName runs on the number of entries, and each round either
-- moves on or removes one, so the rounds are enough. Ports are of type uint16 in the packets and
-- the cache has 65536 lists, so no port of a packet is out of range.
--
-- `NameUniqueHash` doubles its digest of 20 bytes, so as many rounds as the size are enough.
--
-- In Mqtt.Interests the goroutines of all jobs are interleaved: a step of any of them, from one call
-- that takes a lock or waits to the next, may come after a step of any other. So too in Mqtt.Queries,
-- for the queries and the handlers of answers, and in Tunnel.Loops, whose moves have no value where a
-- goroutine has to wait; there a channel without a buffer is one move of its two ends.
--
-- Each pool makes at most 61 IPv4 and 254 IPv6 addresses, the code's own limits.
--
-- Not modelled: the other commands and the loggers, which are output; what the MQTT library does
-- behind its calls; the serving and the routing of the HTTP server; the service managers in Python.
mod Base
pub mod Net
pub mod Table
pub mod ProxyCache
pub mod Packets
pub mod Tunnel
pub mod Network
pub mod Env
pub mod Utils
pub mod Events
pub mod Mqtt
pub mod Handlers
pub mod Server
pub mod Cmd
mod Tests
