-- ===== src/Lib.antt =====
-- A model of picoos-lwip, the port of the lwIP network stack to Pico]OS, with the theorems that
-- make it correct. Paths below are from the root of the repository.
--
-- Parts of the program:
--   apps/dhcps/dhcps.c   a small DHCP server that lwIP calls once for each message.
--     Dhcps/Options has the option readers and writers (getOption to addOptionByte) and the loop
--     of handleRequest over a request's options; Dhcps/Leases has allocateAddr, its first loop
--     as find_lease and its second as claim_lease; Dhcps/Server has newResp, handleDiscover,
--     handleRequest, dhcpRecv and the start and stop of the server. The parts of a handler that
--     build one reply are send_offer, send_ack and send_nak. The static variables are the record
--     Server. Of the files under Dhcps/Server, Outcomes specifies what a message can lead to,
--     Steps and Received relate the handlers to that, and Protocol specifies the server without
--     its table, by who holds which address of a pool (Dhcps/Leases/Grants), which Refine takes
--     to runs. Runs, Full, Capacity, Served, Handshake, Taken and Renewal are about the table
--     over runs and who is answered, and Life is about starts and stops.
--   sys_arch.c   lwIP's system layer over the kernel: SysArch/Nano is the kernel as an
--     interface, SysArch/Sync has mutexes, semaphores, protection, threads and random numbers,
--     with the semaphore calls of one thread among others in Sync/Shared, SysArch/Time the time
--     arithmetic that semaphores and mailboxes share, and SysArch/Mbox the mailboxes: Mbox/Queue
--     for the calls that do not wait, Mbox/Shared for all calls of one thread among others,
--     whose posts and fetches the ring lets in at any call and records, and Mbox/Life for the
--     making and freeing of mailboxes. SysArch/Handles has the macros of
--     include/arch/sys_arch.h.
--   sockets.c and include/picoos-lwip.h   lwIP sockets as files of Pico]OS micro: Sockets, over
--     the interface Sockets/Env, with the socket macros in Sockets/Calls. Sockets/Slots says what
--     the calls are to do to the table of slots and lwIP sockets and to lwIP, whose sockets are a
--     state apart there (Net of Sockets/Env); Slots/Tables and Slots/Refine relate the calls to it.
--   netif/tapif.c   an Ethernet driver over a tap device: Tap has sending, receiving and the
--     polling thread (lowLevelOutput, lowLevelInput, tapIfInput, tapThread), Tap/Init the start
--     of the interface (lowLevelInit, tapIfInit), with ETH_PAD_SIZE 0 and without LWIP_IPV6 and
--     LWIP_NETIF_HOSTNAME. The answers of the system and of lwIP during one call are a Turn.
--     Tap/Padded has sending and receiving with ETH_PAD_SIZE other than 0, where packets start
--     with padding that pbuf_header hides from the driver; Padding has pbuf_header as an
--     interface, and Padding/SmallPackets an instance of it in lists.
--     Tap/Dispatched says what is to happen to a received packet by its type, in both drivers.
--     Tap/Wakeup has the thread and the signal handler (ioReadyContext) as steps, in any order
--     with the frames that come in: a frame raises a signal, and signals that wait are one.
--   netif/cs8900a_lpc_e2129.c and include/netif/cs8900a_regs.h   a driver for a CS8900A on the
--     pins of a microcontroller: Cs8900a/Board has the pins and the chip as interfaces, and
--     IsBoard, how they answer each other; Cs8900a/Regs the registers; Cs8900a/Access the bus
--     cycles (cs8900aWrite to cs8900aReadRxBuf); Cs8900a/Transmit sending (cs8900aSkipFrame,
--     lowLevelOutput); Cs8900a/Receive lowLevelInput; Cs8900a/Poll the polling thread
--     (cs8900aIfInput, cs8900aThread); Cs8900a/Start the start (InitSeq, lowLevelInit,
--     cs8900aIfInit), with the same options as the tap driver. Transmit/Spec and Receive/Spec
--     say by reads and writes of the chip's ports what sending and receiving are to do.
--     Receive/Endless is about a buffer too long for the counter of lowLevelInput.
--     Poll/Drained is about whole rounds of the polling thread, and Poll/Alike and Poll/Rounds
--     compare the driver with that of the tap device. Padded is as Tap/Padded. A buffer of a
--     packet is its length and the memory from its payload to the end of its block, since the
--     driver moves pairs of bytes.
--
-- How state and errors are modelled. A buffer is a list of bytes; a load or store outside it is
-- a fault, and a function that can meet one returns an option whose `none` is the fault. A
-- failed assertion is such a fault too: with LWIP_DEBUG it stops the program, and without it
-- what follows uses a NULL pointer. Calls with an effect outside the DHCP server or a network
-- driver are events, in the order in which the code makes them, among them the allocation and
-- freeing of buffers and the printing that reads a response. What pbuf_alloc returns comes with
-- each message and is arbitrary. The layout of `struct dhcp_msg`, the ports, the cookie and the
-- address macros are the record Lwip, and what the server relies on is IsLwip. The pins of the
-- CS8900A's board and the chip are interfaces too, and IsBoard is how they answer: a strobe that
-- goes up ends a cycle at the address on the bus, and the chip drives a byte while IOR is low. A
-- theorem on received frames takes it that the blocks of pbuf_alloc hold whole pairs of bytes,
-- as lwIP's pool, whose buffers have aligned sizes, does, and that a buffer has fewer than 65535
-- bytes. Kernel and file layer are interfaces with an abstract state. Numbers are natural
-- numbers, with wrap-around written out where the code's width matters: 32 bits for u32_t, 16 for
-- u16_t and uint16_t, `jif_bits` for the tick counter.
--
-- Fuel. The loop over a request's options runs on fuel one more than the length of the message.
-- Each round passes two bytes or more, so it is never used up. The loop of the CS8900A's
-- lowLevelInput over a buffer runs on one more than the number of the buffer's pairs, which is
-- enough for a buffer of fewer than 65535 bytes; at 65535 the code's loop does not end, and the
-- result is `none`. The wait of lowLevelInit for the end of the CS8900A's reset has no bound in
-- the code: it runs on the number of reads that are allowed, and returns if that is more than the
-- chip needs.
--
-- Not modelled: the text that printf prints, and the names that kernel objects are given; the
-- macros of name lookup, which rename calls of lwIP, and getsockopt, a macro without parameters;
-- types, formats and attributes of include/arch/cc.h and sys_arch.h; the contexts that ioReady
-- of netif/tapif.c switches between; the SNMP macros of the drivers; the times of a bus cycle;
-- build files. lwIP and Pico]OS are not part of the repository and are parameters.
pub mod Prelude
pub mod Dhcps
pub mod SysArch
pub mod Tap
pub mod Sockets
pub mod Cs8900a
pub mod Padding
