-- ===== src/Lib.antt =====
-- A verification of an EtherCAT master: its tasks, the sockets that carry their PDUs, the frames in which they
-- go out, and what the master knows of its slaves.
--
-- A task of the master (the trait `CyclicTask`, src/task/mod.rs) is a state machine that puts one PDU at a
-- time into a `PduSocket` and reads the answer when it comes back with the working counter that the slaves
-- counted up. `SocketInterface` keeps the sockets in an `IndexSet`, sends what lies in them and brings the
-- answers back; `process_one_step` hands an answer to the task and takes its next PDU, and `block_on` repeats
-- that for the calls that wait for a result. The master runs the same tasks cycle by cycle.
--
-- Which file models which part:
-- - Base, with Base/Lists, Base/Slices, Base/Bytes, Base/Panic and Base/Tests: the shared notation. A panic (an index out of range, a
--   failed assertion, `unwrap` of nothing) is the `none` of an `Option`, and Rust's `Result` is `Result`.
-- - Foreign: the code of other crates as parameters: the accessors of the `bitfield` crate and the
--   conversions of `num_enum`, each a record of operations with the laws that their documentation gives.
--   Foreign/Lsb0, Foreign/Codes, Foreign/Commands and Foreign/Messages show that the laws can be met, and let the tests run.
-- - IndexSet: `IndexSet` of src/util.rs. Chain, Laws and Update hold the list of free slots, the invariant, and
--   the laws of the operations.
--   IndexSet/Shape: what changes only the items keeps the free list.
-- - Frame: the sizes and headers of src/frame/ethercat.rs in Frame/Ethernet, Frame/EtherCatPdu and
--   Frame/MailboxFrame; Frame/Mailbox: the messages of a mailbox, read by `mailbox` in its Parse and
--   written by `set_mailbox` in its Write, where `none` is a panic, with the headers of src/frame/coe.rs in Frame/Coe and its codes in
--   Frame/AbortCode; Frame/Pdus: the iterators of src/frame/frame_util.rs over the PDUs of a buffer, whose
--   `next` gives the rest of the iterator with the PDU; Frame/Util: `EtherCatFrameUtil`.
-- - Interface: commands and addresses of src/interface/pdu_if.rs. Interface/Socket: `PduSocket` of
--   src/interface/socket_if.rs. Interface/PduIf: `PduInterface`, with the device of src/interface/hal.rs as a
--   record; Codec and Queue relate the bytes of its buffer to a list of PDUs, and Turns and Counts count them.
--   Interface/Poll: `SocketInterface` (here `Sockets`), which fills the record that Task/Driver takes; its Pending
--   counts the PDUs that wait in the sockets, and its Delivery says which answers a socket gets.
-- - Register: the registers of src/register that the tasks read and write, a module each, as accessors of
--   byte slices, and the codes of the AL status.
-- - Slave: the states and sync managers of src/slave/slave.rs, and the counter of mailbox messages.
--   Slave/Info: what is known of a slave; Slave/LogicalBits: the place of a value in the image of the process data,
--   its reading and its writing; Slave/Config: `FmmuConfig`, and the entries and settings of src/slave/config.rs;
--   Slave/Network: src/slave/network.rs.
-- - Master/MailboxManager: src/master/mailbox.rs without the requests.
-- - Task: the trait of src/task/mod.rs and the errors of src/task/error.rs; Task/Reach: the runs of a task,
--   with any answers at any time; Task/Sending: the shape of sending. A file for each task of the same name in
--   src/task: AlTransfer, SiiRead, AddressAccess, MailboxRead, MailboxWrite, Mailbox, and those of
--   src/task/loop_task in LoopTask. `next_pdu` and `recieve_and_process` are `send_in` and `process_in` at the
--   task's state, which split the source's `match`; `start`, `wait` and `is_busy` keep their names. Both give
--   the changed task, since the source changes it in place, and sending also gives the changed buffer.
-- - Task/Driver: `process_one_step` and `block_on`, over a record of what they use of `SocketInterface`;
--   Task/Calls: the calls of src/task/mod.rs that run a task to its end.
--
-- Bounds and fuel. Numbers are natural, and a subtraction stands under the test that the source makes before
-- it. Addresses and offsets are sums of `u8` and `u16` values that stay below 2 ^ 16. A `usize` has 64 bits.
-- The loop of `block_on` takes fuel, one unit for each round; it needs 100001 beside those rounds in which the turn
-- of the sockets asks for a repetition, since the loop counts the others up to 100000. A loop on fuel gives an
-- `Outcome`, which tells the end of the fuel from a panic. The loops over the PDUs of a
-- buffer take one unit of fuel for each of its bytes and one more, of which a PDU takes more than twelve. A
-- subtraction below 0 and an overflow are panics, as they are with the checks that a debug build has.
--
-- Not modelled: the adapters of network devices, which only do input and output; the
-- codes of an emergency message, and the requests of the mailbox manager; the tasks that initialise slaves, clocks and the network; the master's own cycle and its mapping of
-- the process data; and the SDO tasks, which no module of the crate declares.
pub mod Base
pub mod IndexSet
pub mod Foreign
pub mod Frame
pub mod Interface
pub mod Register
pub mod Master
pub mod Task
pub mod Slave
