-- ===== src/Lib.antt =====
-- A verification library for EDGEPI-E87N, the Debian board support of an ARM64 network device: the display and fan
-- stack that runs on the board, the boot helpers of the factory layout, and the audits of the
-- firmware before it is released, and the publication of a release. The models are translated from the Python sources.
--
-- The parts, and how they work together:
--
-- * Hardware (board-support/e87n/hardware.py). Hardware.Config is the schema of display.json:
--   `validate_config` is `_validate_config`, `unique_object` is `_unique_object`. Hardware.Backlight
--   is `_raw_brightness` and `_apply_config`, Hardware.Number `_integer`, Hardware.Fan `fan_test`,
--   Hardware.Cpu `_cpu_usage`. Hardware.Display is `display`: it loads, changes, validates, saves and
--   applies a configuration. Hardware.Saving is `_save_config_at`, one system call after the other.
--   The state is the directory with the file and the temporary file (`Disk`): each is complete or
--   torn, and flushed or not. What the system answers is `Machine`; an `Outcome` has the state behind
--   the call and those before it, the writes that were issued, and the result.
-- * Framebuffer (board-support/e87n/display.py). `validate_framebuffer` turns the two ioctl structures
--   into a `Layout`; Framebuffer.Pixels is `pack_rgb565`; Framebuffer.Draw is `_write_all` and `draw`
--   over a list of answers of the kernel, with the trace of bytes that the device took.
-- * Daemon (board-support/e87n/display.py). One `turn` is a round of `run_daemon` up to the drawing:
--   it reads the configuration that Hardware.Config accepts, and picks the page that `draw` shows.
-- * Fdt and Fit (scripts/factory_firmware.py). `fdt` reads a flattened tree; `check_fit` reads the
--   firmware with it, and then the tree inside the firmware.
-- * Paths and Modules (scripts/factory_firmware.py). `rooted` resolves a path of an unpacked image,
--   and `module_closure` collects what a kernel module needs.
-- * Boot (board-support/factory-boot/factory_boot.py). `validate_live` checks the running board,
--   `resize_rootfs` grows the root file system, `factory_macs` reads the two MAC addresses, and
--   `setup_macs` gives them to the interfaces and to networkd, by `port_networks`; its state is the two
--   runtime network files, and an exception rolls them back.
--
-- * Release (scripts/ci-publish-release.py, scripts/release_identity.py). Release.Staging is
--   `validate_assets`, Release.Identity the tags and file names, Release.Job `gh` and `api`,
--   Release.Checks and Release.Remote the questions to the hosting service, Release.Publish the
--   drafts and replacements, Release.Options and Release.Main `main`. A job is a function of the
--   calls made so far, newest first; the service is an arbitrary function of these. Release.Plan is
--   the abstract view: the calls that change the service, as a state machine of a publication.
-- * Doctor (board-support/e87n/doctor.py). Doctor.Reader is `_Reader`, a walk over links that stays
--   under the root; Doctor.Identity, Storage, Devices and Kernel are the checks, Doctor.Report is
--   `doctor`. Doctor.Shlex is the `shlex.split` that `_identity` calls.
-- * Initramfs (scripts/verify-initramfs.py). Initramfs.Listing reads the configuration, the listing and
--   modules.dep; Initramfs.Search is the loop with the stack; Initramfs.Verify is `verify`.
--
-- Base has what the parts share: tests on native numbers, lists, texts, bytes, words, decimals,
-- results of code that raises, and `|` on numbers. Json has the values of the json module. Examples
-- applies the theorems to concrete inputs.
--
-- Conventions. A Python int that cannot be negative is a native number, another one is ℤ; nothing
-- here wraps, since Python ints do not. An exception is a constructor of the part's error type.
-- A dictionary is a list of pairs in insertion order. A text that is only compared is a String, and
-- a text that is parsed is a list of bytes. Kernel, file system, SHA-256 and LZMA are arguments.
--
-- Bounds and fuel. `Fdt.loop` has one unit of fuel more than the structure block has bytes, and a
-- token takes at least four. `Modules.visit` has one more than the graph has modules, and the
-- callers on a path of the search are different modules. `Paths.resolve` counts the forty links of
-- the source, and Doctor.Reader the sixteen of its own. `find_pages` asks for the twenty pages of the
-- source, and `check_objects` follows its sixteen tags. `Initramfs.Search.loop` has one round more than
-- there are requested names, modules and dependencies. `write_all` ends with `waiting` where the list of answers ends. `digits` of Base.Decimal
-- has more fuel than the number has digits. All other recursion is structural.
--
-- Not modelled: JSON text, file descriptors and locks, the trust checks of directories in hardware.py,
-- drawing with Pillow, floats (a percentage stays a fraction, times are whole milliseconds), command
-- lines (argparse), gzip, shell scripts, and the other Python tools of scripts, testing and
-- board-support.
pub mod Base
pub mod Json
pub mod Hardware
pub mod Daemon
pub mod Framebuffer
pub mod Fdt
pub mod Boot
pub mod Fit
pub mod Paths
pub mod Modules
pub mod Release
pub mod Doctor
pub mod Initramfs
mod Examples
