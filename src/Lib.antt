-- ===== src/Lib.antt =====
-- A verification library for the Container Management Layer (cml).
--
-- cml runs containers. Its daemon (daemon/) keeps one compartment for each container; the modules
-- of the daemon hook into a compartment's life, each for one kernel facility. The hooks run in a
-- fixed order: before the early child is cloned, behind that, behind the clone of the container's
-- init process, before and behind its exec, at a stop and at the clean-up. The daemons share lists, an
-- event loop and small helpers (common/), and a daemon of its own keeps the keys (scd/). Another daemon
-- (tpm2d/) measures images into the TPM, which rattestation/ verifies from afar.
--
-- Devices: daemon/c_cgroups_dev.c, with the macros it takes from daemon/bpf_insn.h.
--   Devices/Item.antt     c_cgroups_dev_item_t
--   Devices/Rule.antt     the parser of rules c_cgroups_dev_from_rule_new, with strtok_r and strtol,
--                         and the text that device_allow and device_deny print
--   Devices/Bpf.antt      c_cgroups_dev_bpf_prog_generate and _append
--   Devices/Bpf/Machine   the kernel's BPF machine: a parameter with the documented laws of the
--                         instructions that the generator emits
--   Devices/Control.antt  the lists of one container next to the two global lists, and each
--                         operation: allow, assign, deny, their list and device forms,
--                         bpf_prog_activate, start_post_clone, cleanup, is_dev_allowed
--   Devices/World.antt    all containers, and any sequence of operations on any of them; in its
--                         folder, the rules of two containers and their programs
-- An operation takes the state of its container and returns its code with the new lists; none
-- stands for a read or write through a null pointer, which a rule that does not parse leads to.
--
-- Compartment: the parent's side of daemon/compartment.c and the states of daemon/compartment.h.
--   Compartment/State.antt    compartment_state_t
--   Compartment/Life.antt     struct compartment, and what the callbacks share: set_state, key,
--                             cleanup, kill and the two time-outs
--   Compartment/Start.antt    compartment_start, its two callbacks for the child's messages, and
--                             compartment_stop
--   Compartment/Signals.antt  the two SIGCHLD handlers and the helper children
--   Compartment/Env.antt      compartment_init_env_prepend, where none is a fault
--   Compartment/Steps.antt    any sequence of operations and callbacks on one compartment; a
--                             callback runs only while it is registered
-- A compartment's record counts the callbacks registered with the event loop, lists the states that
-- it left, at each of which its observers are told, and lists the signals sent and the clean-ups
-- called.
--
-- Offsets: two modules of the daemon that give each container a share of a number range.
--   Offsets/Slots.antt        the search for a free place that both have
--   Offsets/Users.antt        daemon/c_user.c: the ranges of user ids, the start and the clean-up
--   Offsets/Nets.antt         daemon/c_net.c: the addresses of the interfaces, their start and
--                             clean-up
--
-- Scd: the tokens of the security token daemon and their lock.
--   Scd/Soft.antt, Scd/Usb.antt   scd/softtoken.c and scd/usbtoken.c
--   Scd/Token.antt                the two kinds behind one interface (scd/token.c) and the messages
--                                 about lock, keys and passphrase (scd/control.c)
--   Scd/Lockout, Refused, Guessing   sequences of these messages
--   Scd/Store.antt, Scd/Stored.antt  a token that is added and removed (scd/scd.c), and all messages
--
-- Links: the doubly linked lists of common/list.c, on a memory of elements with addresses.
--   Links/Heap.antt, Links/Ops.antt   the memory and the functions; none is an access to memory that
--                                     holds no element, or a loop that is out of fuel
--   Links/Seg.antt                    the lists that pointers into the memory stand for
--   Links/Grow, Unlink, Replace, Delete   each function against these lists
--
-- Events: the timers and the signals of the event loop, common/event.c.
--   Events/Time.antt, Events/Timers.antt   the timespec macros; the timers and their handler, which
--                                          takes what the functions of the timers do as an argument
--   Events/Timeout, Weight, Expiry, Endless   the wait, and whether the handler ends
--   Events/Signals, Events/Dispatched      the events for signals and their handler, likewise
--
-- Hex: the conversions of common/hex.c, with the parts of sscanf and snprintf that they use.
--
-- Texts: the growing text buffer common/str.c.
--   Texts/Str.antt            the functions, on a buffer of bytes; none is an access outside of it
--   Texts/Insert, Copies, Own, Calls, Runs   an insertion from outside and of the buffer's own
--                             text, and any sequence of calls
--
-- Audit: the log of audit records of a container, a file of texts with a delimiter behind each.
--   Audit/Log.antt            the functions of daemon/audit.c on that file, with file_read_new and
--                             file_write_append of common/file.c
--   Audit/Records, Queue      files that hold records, and the log as a queue
--
-- Messages: the framing of messages on sockets, common/protobuf.c, above common/fd.c.
--   Messages/Fd.antt, Messages/Protobuf.antt   reads and writes in pieces, as the kernel answers; a
--                                              length of four bytes before each message
--   Messages/Transfer, Delivery, Broken        what arrives of what is sent, and what is lost
--
-- Attest: the measurements and their verification.
--   Attest/Hash.antt, Attest/Bytes.antt     rattestation/hash.c; memcmp and strcmp
--   Attest/Measure.antt                     the list of container images in tpm2d/ml.c, and
--                                           tpm2_pcrextend of tpm2d/tpm2_commands.c
--   Attest/Containers.antt                  rattestation/container_verify.c
--   Attest/Ima.antt, Attest/Log.antt        rattestation/ima_verify.c: the fields of one event, and
--                                           the loop over the log
--   Attest/Quote.antt                       attestation_verify_resp of rattestation/attestation.c
--   Attest/Binding, Agreement, Unsigned, Led, Accepted   what is accepted, and what that shows
--   Attest/Overflow, Remains, Fuel          writes past a buffer, and the fuel of the loop
-- A read or a write beyond the end of a buffer is none.
--
-- Devices and Compartment meet in the state of the compartment: the device operations load a new
-- program only while it is booting or running, and start_post_clone of Devices is one of the hooks
-- whose answers Compartment/Start.antt takes. The timers and signals of Events are what Compartment
-- registers its callbacks with, and Links says of Events' lists what the numbers in them stand for.
-- Attest takes the conversion of expected registers from Hex; its responses come by Messages.
--
-- Answers from outside are arguments: those of the kernel to the loading, opening and attaching
-- of a program, of waitpid, clone, mmap, socketpair and write, the child's messages, the codes of
-- the modules' hooks, atoi, token files, card terminals and OpenSSL, the clock, the addresses
-- that malloc gives, what read and write move, what new memory holds and whether realloc moves,
-- protobuf-c's packing, the TPM, the digests and checks of signatures of OpenSSL, the parsers of
-- the TSS library and of rattestation/modsig.c, and calloc. Nothing is assumed of them but what a
-- theorem says, the lengths of digests, and the laws of the BPF machine in
-- Devices/Bpf/Machine.antt, and a concrete machine with them stands in the tests.
--
-- Bounds: int is two's complement of 32 bits and long of 64, where the parser tests for them;
-- strtol reports a range error (none) beyond the ends of long. The loading of a program is
-- retried ten times, as in the source, behind the first attempt, with one attempt more for the
-- log. printf's digits are written with one round of fuel more than the number, which has fewer
-- digits than that. A loop over a list has a step of fuel for each element, and the length of the
-- list is enough; the handler of the timers has a step for each timer that it looks at, and the
-- nanoseconds that the timers lie in the past bound them, as the marked events do for the
-- signals. The loop over a measurement log has a step for each byte, of which a pass takes 28 at
-- least. Time does not pass within a call, the file of the audit log does what it is asked to,
-- and seconds do not overflow.
--
-- Not modelled: memory and its release, but for the elements of lists; logging; the file
-- descriptors of the program, the cgroup and the sync sockets; what observers and modules do to a
-- compartment beyond what their hooks return; the child's side of a start, which is system calls;
-- name spaces, netlink and files in daemon/c_user.c and daemon/c_net.c; provisioning,
-- certificates and card commands in scd/; epoll and inotify in common/event.c, and list_foreach,
-- which calls back; the printf forms and the dump of common/str.c; messages as text in
-- common/protobuf.c; the request and the configuration in rattestation/, the parser
-- rattestation/modsig.c, and the commands and sockets of tpm2d/; and the other files of the
-- repository: the rest of common/ and of daemon/audit.c, converter/, the other modules of
-- daemon/, and the copies of other projects' libraries among them.
pub mod Prelude
pub mod Compartment
pub mod Devices
pub mod Offsets
pub mod Scd
pub mod Links
pub mod Events
pub mod Hex
pub mod Messages
pub mod Attest
pub mod Texts
pub mod Audit
