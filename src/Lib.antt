-- ===== src/Lib.antt =====
-- libnetwork: a verification library beside the Go sources.
--
-- bitseq keeps a bitmask as a list of run-length encoded 32-bit blocks and allocates single bits of
-- it; idm hands out numerical ids from a range, one for each bit of such a mask. The networks and
-- address pools of the program take their addresses and ids from these two. portallocator hands out
-- transport ports and remembers for each range where it left off. ipam keeps the address pools and
-- hands out the addresses of each from a mask of bitseq. networkdb is the gossip database of the
-- cluster, through which the nodes agree on the entries of each network. portmapper maps ports of the
-- host to containers, over portallocator. The service records of a network, kept in the sets of
-- setmatrix, are what its resolver answers from; the bindings of services add their names to them.
--
-- Bitseq/Sequence.antt: bitseq/sequence.go, the functions on `*sequence` (getAvailableBit, equal,
--   findSequence, checkIfAvailable, pushReservation, removeCurrentIfEmpty, mergeSequences,
--   getFirstAvailable, getAvailableFromCurrent, runConsistencyCheck, getNumBlocks, ordinalToPos,
--   posToOrdinal), each a function of the same name in snake case. A list is a `List Node`. The
--   modules below it hold the proofs: Mask says what a list stands for and when it is well formed.
-- Bitseq/Handle.antt: bitseq/sequence.go and bitseq/store.go, the `Handle` with NewHandle (new_handle),
--   SetAny (set_any), SetAnyInRange, Set (set_bit), Unset (unset_bit), IsSet (is_set_bit),
--   CheckConsistency and the loop of set. Its state is the record `Handle`; an operation returns the
--   new handle with its result. Reserve states the invariant `IsHandle`.
-- Bitseq/Codec.antt: bitseq/sequence.go, toByteArray and fromByteArray of a list and ToByteArray and
--   FromByteArray of a handle (handle_to_byte_array, handle_from_byte_array), on lists of bytes; a
--   slice out of range is an outcome of its own.
-- Idm.antt: idm/idm.go, the record `Idm` with New, GetID, GetSpecificID, GetIDInRange and Release.
-- Portallocator.antt: portallocator/portallocator.go, a `portMap` with newPortMap, getPortRange, findPort
--   and the part of RequestPortInRange and ReleasePort that works on it; Addresses has the map from
--   addresses and protocols to port maps, with RequestPort, RequestPortInRange, ReleasePort, ReleaseAll.
-- Portmapper.antt: portmapper/mapper.go, mapper_linux.go and what makes a proxy, the record `PortMapper`
--   with Map, MapRange, Unmap, ReMapAll and SetIptablesChain. Hosts says when mappings and ports
--   belong together.
-- Setmatrix.antt: internal/setmatrix/setmatrix.go, with golang-set as an interface of operations and laws
--   (Sets), the operations in Matrix, and ListSets to show that the laws can hold.
-- Discovery.antt: the names of a network. Records has addSvcRecords, deleteSvcRecords, updateSvcRecord of
--   network.go and cleanupServiceDiscovery; Resolve has ResolveName, ResolveIP, ResolveService,
--   HandleQueryResp and getSvcRecords; Text is ReverseIP of netutils/utils.go, with what net and strings
--   make of a text as a parameter. Services has the data of service.go and the functions of
--   service_common.go on the names of an endpoint; Bindings has addServiceBinding, rmServiceBinding,
--   cleanupServiceBindings and getLBIndex. Maps is Go maps of any keys.
-- Networkdb.antt: networkdb/, the gossip database. State has the structs `NetworkDB`, `node`, `network`
--   and `entry`; Entries the calls of a node on its entries (CreateEntry, UpdateEntry, DeleteEntry,
--   GetEntry) and what a leave does to them; Nodes the networks, their participants and the lists of
--   active, left and failed nodes (JoinNetwork, LeaveNetwork, changeNodeState, NotifyJoin, NotifyLeave);
--   Delegate the handlers of node, network and table events, handleCompound and MergeRemoteState; Steps
--   composes them as a step relation, with the reapers of cluster.go in Reap. Radix states what is used
--   of go-radix and of serf's Lamport clock, as interfaces; as a tree whose items are deleted under a
--   walk may leave items out of it, what a walk visits depends there on what its callback deletes.
-- Ipam.antt: ipam/, and the functions of types/types.go that it uses. Keys has SubnetKey, Keys/Text its
--   String and FromString, which ids of pools go through. Pools has updatePoolDBOnAdd and
--   updatePoolDBOnRemoval, of which Pools/Held says what they promise: a list of the pools that are
--   held. Addresses has the ordinals and addresses of ipam/utils.go, Allocator the bitmasks, getAddress,
--   RequestAddress and ReleaseAddress over the handles of Bitseq, and below it Defaults the predefined
--   pools, Requests RequestPool and ReleasePool, and Ids the calls by the id of a pool. Net is what is
--   used of package net, whose functions on text are parameters.
-- Prelude: Boolean tests, lists, words of 64 and 32 bits, and a result type.
--
-- Numbers are natural numbers with the wrap-around of uint64 and uint32 written out. Well-formed lists
-- have at most 2 ^ 59 blocks, as those of a handle of less than 2 ^ 64 bits do, so that no position
-- wraps. The loop in a block has 32 rounds of fuel, one for each bit; the retry loop of
-- getFirstAvailable has one for each block of a node and one more, and the theorem on it shows that
-- none runs out; the loop of fromByteArray has the number of bytes and one. The search of a port has
-- one round for each port of the range, as its loop does. The loop of set takes one answer of the
-- datastore for each round.
-- The loops over the parents of a pool have fuel for a part of a pool, the pool, and the key that is
-- missing, and the theorems on them show that it does not run out where the map is the one of the
-- pools that are held.
--
-- Not modelled: printing, JSON, Destroy, the mutexes (each call is one step), and the
-- datastore itself, whose answers are data. Of networkdb when the timers run, the queues, the encoding of
-- messages and the counts kept for statistics are left out, and of ipam the address spaces with a
-- datastore. What a platform does for a load balancer, a proxy or iptables is a list of calls and given
-- answers; addServiceBinding finds the networks of the store in a list. The other packages are left
-- out: some are system calls, drivers or HTTP, and datastore, the agent, the endpoint counts and the
-- life of networks, endpoints and sandboxes are not covered yet.
mod Prelude
pub mod Bitseq
pub mod Idm
pub mod Portallocator
pub mod Networkdb
pub mod Ipam
pub mod Setmatrix
pub mod Discovery
pub mod Portmapper
