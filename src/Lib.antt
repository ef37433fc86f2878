-- ===== src/Lib.antt =====
-- The USB 3.0 dual-role device model: the SystemC blocks of the device, the connections between
-- them, and the peer that the testbench attaches.
--
-- The program's parts. The role manager picks a role from the CC state, VBUS and requests of the
-- firmware. The top level (`usb3_drd_controller_t`) switches the host or the device controller on by
-- that role, keeps the register file and the interrupt line. Both controllers send through the
-- protocol layer, which numbers packets and gives those that come from the link to the controller of
-- the role. The testbench's peer stands at the other end of the link and answers inside the call.
--
-- The files, and the code that each models:
--   Types, Types/Tlm, Types/Names   include/usb3_types.h, and what is used of `tlm_generic_payload`
--   Protocol                        include/usb3_protocol_layer.h, src/usb3_protocol_layer.cpp
--   RoleManager, RoleManager/Thread include/usb3_role_manager.h, src/usb3_role_manager.cpp
--   Drd, Drd/Reg, Drd/Monitor       include/usb3_drd_controller.h, src/usb3_drd_controller.cpp
--   Device, Device/EpFifo, Device/Descriptors, Device/Strings, Device/Thread
--                                   include/usb3_device_controller.h, src/usb3_device_controller.cpp
--   Host, Host/Ring, Host/Enumerate, Host/Process, Host/Thread
--                                   include/usb3_host_controller.h, src/usb3_host_controller.cpp
--   Peer                            `peer_device_t` of src/sc_main.cpp
--   System, System/Roles, System/Interrupts
--                                   `bind_internal` and the bindings of `tb_top_t`
--   Pair                            the same for two dual-role devices at the ends of one link
--   Bench                           `tb_top_t` of src/sc_main.cpp, its script `run_scenarios`
-- The other files hold theorems about these, and each Tests file runs them at concrete inputs. Base
-- has the lists, Boolean tests, bits and bytes that all share.
--
-- How the code is read. A module's members and the values last written to its output ports are a
-- record. Functions and handlers keep their names; a thread is one function for each stretch
-- between two waits. A blocking transport call takes the transaction and the state, and returns
-- both; each module sees the rest of the system as a parameter `E`, and System puts the modules'
-- states together. What other processes do while a thread waits is the parameter `pause`, of the
-- time in nanoseconds. The status of a new transaction, which the TLM library sets, is the
-- parameter `fresh`. Where the simulation kernel decides (a notification that finds its thread
-- waiting elsewhere is lost) the threads are step relations: RoleManager/Thread and Drd/Monitor,
-- joined in System/Roles, Device/Thread and Host/Thread. The script of the testbench takes what the
-- system does in its waits as the parameter `wait`; Bench/Kernel has one schedule, in which each
-- thread runs until it waits for something that does not come. Eight-, 16- and 32-bit values are
-- natural numbers with the wrap-around written out where the code can reach it.
--
-- Bounds and fuel. `process_transfer_ring` runs on fuel, one unit for each request and one for the
-- stop; Host/Transfers shows that more fuel than queued requests is enough. The peer and the device
-- may call each other in turn, so System's `to_link` takes the number of such calls that may stand
-- inside one another; the theorems hold for every number from one on, and from two on for the calls
-- between two dual-role devices in Pair. The transfer ring holds 256 requests; one more ends the
-- program, which is `none`. `walk` in Device/Blob has fuel for more descriptors than the blob has
-- bytes.
--
-- Not modelled: `usb3_log`, `hex_u8`, which only formats a number for the log, and the texts that
-- the code prints. The schedule of Bench/Kernel leaves out the interrupt collector, whose results
-- the script does not read, and the loopback thread of the device controller, which no packet
-- reaches there.
mod Base
pub mod Types
pub mod Protocol
pub mod RoleManager
pub mod Drd
pub mod Device
pub mod Host
pub mod Peer
pub mod System
pub mod Bench
pub mod Pair
