-- ===== src/Lib.antt =====
-- The installation actions of Tinkerbell for Talos Linux: a verification library.
--
-- The program writes a Talos image to a disk and sets it up: talos2disk chooses the disk (pkg/disks),
-- edits the kernel arguments in the unified kernel images on the EFI partition (pkg/cmdline, by
-- pkg/kargs for the text and pkg/uki for the image files), and makes the network configuration
-- document from the Hardware object (pkg/talosnet, pkg/hardware), which is stored in the META
-- partition. taloscmdline and talosmeta are the single steps.
--
-- The parts and their files:
--   Kargs       pkg/kargs/kargs.go. `merge` is Merge, `merge_arg` a round of its loop, `replace` the
--               inner loop. Kargs/Put, Kargs/Tokens and Kargs/Merge prove.
--   Uki         pkg/uki/uki.go. The file is its bytes; `parse`, `validate`, `read_cmdline` and
--               `inspect` are the functions of these names, the loop of Inspect is
--               `inspect_sections`. Uki/Write is write, from the new section headers (`relayout`) to
--               the patched headers (`patch`) and the contents (`write_sections`). Uki/Rewrite is
--               Rewrite on a file system. The other files below Uki prove: Align on rounding, Content
--               and ReadBack on what the new file holds where, Rewritten and Inspected on reading it
--               again, Atomic on the file system.
--   Ukitest     pkg/uki/ukitest/build.go. `build` is Write up to the writing of the file,
--               `build_headers` its loop over the sections; Ukitest/Samples is Pattern and the
--               lists of sections. Ukitest/Inspected proves.
--   Files       the file system that Rewrite and EditTree change: contents by path, and the steps
--               that may fail.
--   Cmdline     pkg/cmdline/cmdline.go. `apply` is Apply, with its calls as events; `edit_tree` is
--               EditTree, `edit_file` a round of its loop. Cmdline/Edit and Cmdline/Apply prove.
--   Disks       pkg/disks. Disks is disk.go and enumerate.go, Disks/Selector the selector document
--               and Match, Disks/Select the two selections, Disks/Prober prober.go. Disks/Chosen and
--               Disks/Listed prove.
--   Hardware    pkg/hardware: the object as it is decoded, and its accessors; Hardware/OutOfBand its
--               status, Hardware/Fetch Parse and Fetch.
--   Net         pkg/talosnet/config.go and mapping.go. Net is the document, Net/Mask PrefixLength,
--               Net/Mapping the interfaces (`add_interface`) and the helpers, Net/Collect
--               FromHardwareWithOverrides. Net/Links, Net/Document and Net/Unique prove.
--   Naming      pkg/talosnet/naming.go, over the files of sysfs (Naming.Pci.Sysfs): `interface_name` is
--               Name, `nearest_pci` nearestPCIDevice, `hotplug_slot` hotplugSlot; Naming/Pci is the
--               addresses and the names that are made of them. Naming/Found, Naming/Slots and
--               Naming/Precedence prove.
--   Factory     pkg/factory: versions, ResolveVersion, installer references, image URLs;
--               Factory/Client NewClient, Versions and the requests. Factory/Resolved proves.
--   Http        what pkg/factory, pkg/hardware and pkg/image use of net/http and io: answers, and
--               limited reads. Http/Answered proves of the clients.
--   MachineConfig  pkg/talosconfig: the machine configuration in the user data.
--   Install     talos2disk. Install is settings.go, Install/Environment inputs.go, Install/Planned
--               buildPlan, Install/Run run and execute as a sequence of steps, Install/Unknown
--               warnUnknownDisk, Install/Logged logPlan. Install/Protocol is the protocol of an
--               installation as a step relation, which run refines; Install/Wired is deps.go and
--               main.go, and Install/OnDisk puts the steps of the packages together on the bytes of a
--               disk.
--               Install/Precedence, Install/Written, Install/Warned, Install/Exit and
--               Install/Installed prove.
--   Partition   pkg/partition: Partition is partition.go, Locate and Device; Partition/Node is node.go,
--               `ensure_node_at` being EnsureNode. Partition/Names, Partition/Parsed and Partition/Ensured
--               prove.
--   Image       pkg/image/image.go: Retry on a clock, and pretty; Image/Write is Write on the bytes of a
--               device. Image/Retried, Image/Units and Image/Whole prove.
--   Meta        pkg/meta/meta.go: the tags in the META partition of a device, by the interface AdvLib
--               for go-adv. Meta/Spliced, Meta/ReadBack and Meta/Kept prove, from the laws
--               Meta.ReadBack.AdvLaws and Meta.Kept.SetsOne.
--   TalosCmdline  taloscmdline/main.go. TalosCmdline/Applied proves.
--   TalosMeta   talosmeta/main.go. TalosMeta/Document proves.
--   Prelude, Text  shared: Boolean tests, lists, results and sorting; what the program uses of the
--               packages strings, strconv and unicode, and, in Text/Paths, path/filepath and, in
--               Text/Utf8, bytes.TrimSpace.
-- Each part has its tests in a module Tests below it.
--
-- Conventions. Numbers are natural numbers; the wrap-around of uint32 and uint64 is written out
-- (Uki.u32, Uki.u64) where the source computes on such values. A Go string is its code points, which
-- are its bytes where it is ASCII; a command line that is read from an image is its bytes. A value and
-- an error are a `Result`; what Go returns along with an error is a record (Cmdline.Outcome). An index out of range is the error `panic`. Loops are
-- recursion on their list. Fuel is used five times: eight rounds empty a byte
-- (Net.Mask.leading_ones), a number has fewer digits than its value plus one (Text.Numbers.itoa), an
-- int64 is divided by 1024 six times at most (Image.pretty_unit), and each round but the last of Retry
-- and of the wait of EnsureNode takes at least a nanosecond until the deadline (Image.retry,
-- Partition.Node.ensure_node_at).
--
-- Parameters stand for what is not in the repository or has a large input language: the headers that
-- debug/pe reads, filepath.Glob and EvalSymlinks, url.Parse, the YAML and JSON decoders,
-- humanize.ParseBytes, go-glob, go-diskfs (Partition.Table), go-adv (Meta.AdvLib), go-blockdevice, the
-- zstd decoder, net/netip (the interface Net.Mapping.Netip), the transport of net/http
-- (Http.Transport), and what the kernel answers (Naming.Pci.Sysfs, Partition.Node.Machine,
-- Image.Write.Target). What buildPlan asks is the record Install.Planned.Deps, and what the steps of an
-- installation do to a machine is the record Install.Run.World; Install.Wired.default_deps and
-- Install.OnDisk.disk_world fill them in from the other parts.
--
-- Not modelled: the system calls behind mounts and device nodes, logging other than that of the plan
-- and of an unknown disk, and the encoding of YAML and JSON.
pub mod Prelude
pub mod Text
pub mod Kargs
pub mod Files
pub mod Uki
pub mod Ukitest
pub mod Cmdline
pub mod Disks
pub mod Hardware
pub mod Naming
pub mod Http
pub mod Net
pub mod Factory
pub mod MachineConfig
pub mod Install
pub mod Partition
pub mod Image
pub mod TalosCmdline
pub mod TalosMeta
pub mod Meta
