-- ===== src/Lib.antt =====
-- A model of Aetheria, a runtime for Linux containers in a virtual machine, with proofs.
--
-- The program has two parts. The agent (cmd/aetheria-agent) runs inside the guest: it keeps the
-- containers, their network, their limits and the images. The host program (cmd/aetheria) is the
-- daemon that relays requests to the agent, and the command line.
--
-- Prelude and Text hold the shared helpers: Go strings as lists of bytes, maps as association lists,
-- stateful code that may fail (`Exec`), and the functions of Go's `strings`, `fmt` and `strconv` that
-- the program calls. FilePath is `path/filepath`, and its Cleaned tells which paths that gives.
--
-- Agent.Types: the records of container.go, cgroup.go and main.go, and the errors as data; two of
--   these stand for a run-time panic, which ends the agent and is not answered.
-- Agent.Os: the operating system as an interface; `Guest` is the agent's memory beside the
--   containers.
-- Agent.Network (network.go): allocateIP, ensureBridge, setupBridgeNetwork; Addresses, Names and
--   Failures hold the proofs.
-- Agent.Cgroup (cgroup.go): the writes to the control files.
-- Agent.Output (main.go): limitedWriter.
-- Agent.Oci (oci.go): ParseOCIRef, String, ShortName, parseWWWAuthenticate, selectPlatform. Its Registry
--   has getAuthToken, fetchManifest and fetchBlob, its Redirects has CheckRedirect, its Pull has
--   pullOCIImage, extractOCILayer and extractTar, its Layers has mergeLayerWithWhiteouts and copyFile;
--   the modules below these hold the proofs.
-- Agent.Container (container.go): State has the heap of containers, the map and the goroutines;
--   Create, Start, Stop and Query have the methods of ContainerManager, each cut at the points where
--   it gives up and takes the lock; Persist has detectStorageMode, loadConfigs and autoRestart;
--   Again and Names hold proofs.
-- Agent.Lifecycle: those locked regions as the steps of a relation, in any order; Invariant, Safety,
--   Restore and Startup hold the proofs.
-- Agent.Services (main.go, images.go, shell.go): handleInfo, handleImageRPC and handleShellRPC, as the
--   routing takes them.
-- Agent.Init (container.go): containerInit, the first process of a container; Volumes has the proof.
-- Agent.PortForward (portforward.go): lookupPortForward and the connect handler over sockets; Lookup
--   and Tunnel hold the proofs. Its Bridge has the goroutines of bridgeConnections, as the steps of a
--   relation; Closes below it holds the proof.
-- Agent.Images (images.go): Cache has imageExtractPath, Pull has PullImage and extractImage, Rootfs has
--   PrepareContainerRootfs, Listing has ListImages; Tags holds the proofs.
-- Agent.Rpc (main.go, container.go): handleRequest, HandleRPC and handleExec; Steps and Entries
--   hold the proofs.
-- Agent.Connection (main.go): dialVsock, connectToHost, handleConnection, sendResponse and the loop of
--   main; Dials, Answers and Loop hold the proofs.
-- Agent.Shell (shell.go, pty.go): openPTY, StartShell, handleShellRPC and connectShellStream; Files and
--   Sessions hold the proofs.
--
-- Streaming (pty.go, cmd/aetheria/main.go): StreamTo, and the copying for terminals and forwarded ports on
--   the host, as the steps of a relation; whether Close ends a copy is a parameter, since a call on the
--   terminal's file does not end with it. Ends holds the proofs.
--
-- Host.Values (cmd/aetheria/main.go): parsePortMapping, parseMemorySize, parseVolumeMount; Ports,
--   Sizes and Volumes hold the proofs.
-- Host.Options (cmd/aetheria/main.go): the arguments of `create`; Names and Ports hold the proofs.
-- Host.Commands (cmd/aetheria/main.go): cmdContainerCreate and cmdRemoveContainer as the sequence of their
--   requests; Order and Removal hold the proofs, Removal together with Stop and Remove of the agent.
-- Host.Client (cmd/aetheria/main.go): sendToDaemon with its scanner. Plain has the commands that make one
--   request, Tables those that print lists, Terminal has cmdShell with makeRaw, and Create has
--   cmdContainerCreate and cmdRemoveContainer with what they print. Scans, Through (a command and the
--   daemon that serves it), Whole (with the agent behind), Terminal.Restored, Create.Agreeing,
--   Create.Parts and Create.Refines hold the proofs.
-- Host.Usage and Host.Main (cmd/aetheria/main.go): usage, and main with its switch; Main.Quiet holds the
--   proof.
-- Host.Run (cmd/aetheria/main.go): cmdRun with the loops that accept agents and clients; Reconnected and
--   Clients hold the proofs.
-- Host.Daemon (cmd/aetheria/main.go): sendToAgent; Answers holds the proofs.
-- Host.Relay (cmd/aetheria/main.go): handleCLIConn, writeJSONResponse, the listeners of forwarded ports
--   and restorePortForwards; Answered holds the proofs.
-- Host.Streams (cmd/aetheria/main.go): readLineRaw, bridgePTYStreams, bridgePortForwards and
--   handlePortForwardConn; Headers, Ports and Lost hold the proofs.
--
-- Examples: runs at concrete inputs.
--
-- Bounds and fuel: ports and the address counter are numbers with the wrap-around of their width
-- written out; decimal printing takes fuel n + 1 for a number n, which has at most as many digits. The
-- loops of connectToHost and handlePortForwardConn recur on the numbers of rounds of the source, 30 and
-- 50, and those of cmdShell 20. A goroutine's copying is one state; the relations of the bridges bound
-- the number of all their steps. The scanner of sendToDaemon holds 65536 bytes;
-- whether an answer comes before its deadline is a parameter. A file or connection of
-- Go is named by a number, and closing it twice closes nothing else as long as its number is not given
-- to another one, which is a hypothesis where a proof needs it.
--
-- Not modelled: what the operating system does (mounts, namespaces, processes, vsock), which enters
-- as `Os`, `Sockets`, `Vsock`, `Pty`, `Kernel` and `Files`; HTTP, tar and gzip, as `Client` and
-- `Tar`; JSON, as functions that decode and encode; the bytes that are copied between two
-- connections; in cmdRun the handling of signals and the end of the program, and the loop of the listener
-- of a forwarded port; logging; AetheriaDisplay (Swift) and the shell scripts. White space, letter case
-- and the width of columns are those of ASCII.
pub mod Prelude
pub mod Streaming
pub mod Text
pub mod FilePath
pub mod Agent
pub mod Host
pub mod Examples
