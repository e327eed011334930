-- ===== src/Lib.antt =====
-- zeptocapsule runs a worker in a capsule (a process, Linux namespaces or a Firecracker microVM)
-- and gates its outbound HTTP requests. This library models the parts that decide.
--
-- Common has the shared names, Text what the program uses of Rust's `str`: a text is the list of
-- its characters' code points, and bytes are a list of numbers below 256.
--
-- Capsule is src/types.rs: what a capsule is made of and which combinations are valid.
-- Capsule/Create is `create` of src/lib.rs, with the backends (src/backend.rs) as an interface
-- whose answers may change from attempt to attempt.
--
-- Egress, the gate (src/egress). The backends start a proxy for a capsule with a policy; the proxy
-- parses a request, checks the address that its host resolves to, asks the rules, and the judge
-- where the rules say so, then connects and writes an audit entry.
--   Types is types.rs. Rules is rules.rs, with globset as a parameter. Ssrf is ssrf.rs, with
--   ipnet as a parameter.
--   Judge is judge.rs: Judge/Breaker the circuit breaker, with instants in nanoseconds,
--   Judge/Endpoint `parse_endpoint`, Judge/Post `do_post`, Judge/Outcome `parse_judge_outcome`
--   with serde_json as a parameter, Judge/Decide `decide`, with the exchange with the endpoint as
--   a parameter. Other requests may change the breaker while a call is under way.
--   Proxy is proxy.rs: Proxy/Reading the loop that reads a head, on the results of the reads,
--   Proxy/Head its parsing, with httparse as a parameter, Proxy/Resolve `resolve_and_eval`, with
--   the name service as a parameter, Proxy/Rewrite `rewrite_request_for_origin`, Proxy/Plain
--   `handle_plain`, Proxy/Tunnel `handle_connect` and `handle_connection`. A handler's run is a
--   list of effects (Proxy/Effects) and a result; whether each read, write, handshake and attempt
--   to connect succeeds is an argument.
--   Slots is the pool of slots of netns.rs, which fc_net.rs has too: one step is an exchange after
--   a load at any time before, or a release. Veth is the rest of netns.rs, with the results of the
--   `ip` and `nsenter` commands as arguments.
--
-- Seccomp is src/seccomp.rs: the list of system calls and the BPF program, which Seccomp/Filter
-- runs. PolicyBuild is src/bin/zk-policy-build.rs, whose drafts PolicyBuild/Drafted runs through
-- the rule engine. Probe is src/probe.rs, with what the probes read as a record.
--
-- Guest is src/init_shim.rs, the init of a guest. Guest and Guest/Staging are the files by which
-- the Firecracker backend tells it what to run, Guest/Control the messages of their control
-- channel, Guest/Config the configurations that it reads, from the environment in a namespace
-- and from these files in a microVM, and Guest/Init the mounts, the network, the streams and the
-- worker's run, over the calls of Guest/System.
--
-- InitBinary is `default_init_binary` of src/lib.rs. What the backends do to the host is a program
-- over the calls of the system (Common/Program): a call has an answer, and `Every` states something
-- of every run, whatever the answers; `see` is what a reader of the theorem keeps of a run.
--   Rootfs is src/rootfs.rs, with setup_and_pivot in Rootfs/Pivot. Namespace/Cgroup is
--   src/cgroup.rs, Namespace/Clone `do_clone` of src/namespace.rs, on the host, and
--   Namespace/Child `child_main`, in the child; Namespace/Handle is the handle, with its `spawn` and
--   `kill`, and Namespace/Handle/Destroy its end.
--   Firecracker is src/firecracker.rs: Firecracker/Payload stages the worker, Firecracker/Images is
--   src/workspace_image.rs, Firecracker/Api src/firecracker_api.rs and the texts of src/vsock.rs,
--   Firecracker/Boot starts the guest, Firecracker/Handle is `spawn`, Firecracker/Destroy `kill` and
--   `destroy`, Firecracker/Create `create` and the threads that watch the guest.
--   Firecracker/Expected writes out the requests that start a guest, and Firecracker/Accepted what
--   an answer is that a request goes on by, apart from the code's own functions. Egress/Tap is
--   src/egress/fc_net.rs. Process is src/process.rs. Egress/Start has the three functions by which
--   the backends start a gate.
--
-- Bounds and fuel. Numbers are natural numbers; where the source's type is narrower, the wrap or
-- the saturation is written out. Loops are recursion on their list, on the results of the reads
-- (Proxy/Reading bounds how many are needed) or on the rounds of the allocator, which others may
-- make fail without limit. The digits of a number have the number itself as fuel. The loops that
-- wait until a deadline have one round per sleep: 101 for the 5 s of `wait_for_socket` in steps of
-- 50 ms, 151 for the 30 s of a connection to the guest in steps of 200 ms.
--
-- Not modelled: the authority that signs the proxy's certificates (src/egress/ca.rs) and TLS, the
-- judge's connection to its endpoint and the JSON that it sends, threads and wall time, which are
-- calls of libraries; the hint that is logged of a guest's serial log; and the reading and writing
-- of JSON.
mod Common
mod Text
pub mod Egress
pub mod Capsule
pub mod Seccomp
pub mod PolicyBuild
pub mod Probe
pub mod Guest
pub mod InitBinary
pub mod Rootfs
pub mod Namespace
pub mod Firecracker
pub mod Process
