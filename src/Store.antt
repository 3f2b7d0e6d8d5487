-- ===== src/Store.antt =====
-- include/core/KVStore.h and src/core/KVStore.cpp: the key-value store, which sends commands to a Redis server. A
-- command is the list of its words, as hiredis splits the format at its spaces. The server is a parameter; each
-- call is one step, under the monitor's mutex. `none` is an abort by ASSERT, an exception, or undefined behaviour. hiredis
-- gets texts by c_str, so they end at their first byte 0.
pub mod Redis
pub mod Channels
pub mod Clients
pub mod Agreement
pub mod Effects
pub mod Nodes
pub mod Advertise
pub mod Values
