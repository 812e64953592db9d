-- ===== src/Boot/Setup.antt =====
-- `setup_macs`, `validate_interfaces` and `managed_network_file`, with what the system answers as a
-- record.
pub mod Transaction
use edgepi_e87n.Base.{
  ℕ, zero, suc, ◌%◌, ◌==◌, Bool, true, false, not, ◌&&◌, List, [], ◌∷◌, ◌++◌, Option, none, some,
  if◌then◌else◌, length, Bytes, ◌=ᵇ◌, codes, decimal, starts_with, Result, ok, err, ◌>>=◌, ◌>>◌,
  require, or_raise,
}
use edgepi_e87n.Boot.{
  BootError, os_error, wrong_alias, interface_up, no_base, dropins, redirected, unmanaged, Snapshot,
  validate_live,
}
use edgepi_e87n.Boot.Resize.{open_partition}
use edgepi_e87n.Boot.Macs.{factory_macs}
use edgepi_e87n.Boot.Network.{network_header, port_networks}

-- ALIASES[index], for index 0 and 1
unfoldable pub alias : ℕ → Bytes
alias index = codes "/soc_netsys/ethernet@15100000/mac@" ++ decimal index

-- What stands at a path: nothing, a regular file, or anything else.
pub data File : Type 0 where
  absent : File
  file : Bytes → File
  other : File

unfoldable pub managed_network_file : File → Result BootError (Unit {0})
managed_network_file absent = ok tt
managed_network_file (file text) = require (starts_with network_header text) unmanaged
managed_network_file other = err unmanaged

unfoldable pub check_files : List File → Result BootError (Unit {0})
check_files [] = ok tt
check_files (f ∷ files) = do managed_network_file f; check_files files

-- The device tree node of an interface, and its flags.
pub record Interface : Type 0 where
  pub node : Bytes
  pub flags : ℕ

-- eth<index> maps to its alias and is down.
unfoldable pub check_interface : ℕ → Interface → Result BootError (Unit {0})
check_interface index i = do
  require (i.node =ᵇ alias index) wrong_alias
  require (i.flags % 2 == 0) interface_up

unfoldable pub validate_interfaces : Interface → Interface → Result BootError (Unit {0})
validate_interfaces eth0 eth1 = do check_interface 0 eth0; check_interface 1 eth1

-- How one replacement of a file ends: stored, or with an exception before or behind os.replace.
pub data Stored : Type 0 where
  stored failed_before failed_behind : Stored

-- What the system answers; none where a file is not there, or does not open.
pub record NetSystem : Type 0 where
  pub snapshot : Result BootError Snapshot
  pub aliases : ℕ → Option Bytes
  pub eth0 : Option Interface
  pub eth1 : Option Interface
  pub base : Option Bytes
  pub has_dropins : Bool
  pub opened : Option Bytes
  pub factory : Bytes
  pub is_redirected : Bool
  pub ip_link : ℕ → Bool
  pub replace : ℕ → Stored
  pub unlink : ℕ → Bool

-- The state behind the call: the files, the (interface, address) pairs given to ip, and the result.
pub record SetupOutcome : Type 0 where
  pub files : List File
  pub links : List (ℕ × Bytes)
  pub result : Result BootError (Unit {0})

unfoldable pub check_alias : NetSystem → ℕ → Result BootError (Unit {0})
check_alias system index = do
  text ← or_raise (system.aliases index) os_error
  require (text =ᵇ alias index ++ (0 ∷ [])) wrong_alias

-- everything in front of the first change: the addresses and the texts
unfoldable pub prepare : NetSystem → List File → Result BootError (List Bytes × List Bytes)
prepare system files = do
  s ← system.snapshot
  validate_live s false
  check_alias system 0
  check_alias system 1
  eth0 ← or_raise system.eth0 os_error
  eth1 ← or_raise system.eth1 os_error
  validate_interfaces eth0 eth1
  base ← or_raise system.base no_base
  require (not system.has_dropins) dropins
  open_partition 2 s system.opened
  macs ← factory_macs system.factory
  configs ← port_networks base (macs.0 ∷ macs.1 ∷ [])
  require (not system.is_redirected) redirected
  check_files files
  ok (macs.0 ∷ macs.1 ∷ [], configs)

-- The loop over `ip link set`: the commands that ran, and whether all succeeded.
unfoldable pub set_links : NetSystem → ℕ → List Bytes → List (ℕ × Bytes) × Bool
set_links system index [] = ([], true)
set_links system index (address ∷ addresses) =
    let rest = set_links system (suc index) addresses in
    if system.ip_link index
    then ((index, address) ∷ rest.0, rest.1)
    else ((index, address) ∷ [], false)

-- One replacement in front of the rest of the loop.
unfoldable pub write_file : Stored → Bytes → File → List File → List File × Bool → List File × Bool
write_file stored text f files rest = (file text ∷ rest.0, rest.1)
write_file failed_before text f files rest = (f ∷ files, false)
write_file failed_behind text f files rest = (file text ∷ files, false)

-- The loop over zip(paths, configs): the files behind it, and whether all were stored.
unfoldable pub write_files : NetSystem → ℕ → List File → List Bytes → List File × Bool
write_files system index (f ∷ files) (text ∷ configs) =
    write_file (system.replace index) text f files (write_files system (suc index) files configs)
write_files system index files _ = (files, true)

-- The handler: each file is checked, as managed_network_file does, and removed; an exception ends it.
unfoldable pub remove_files : NetSystem → ℕ → List File → List File
remove_files system index [] = []
remove_files system index (absent ∷ files) = absent ∷ remove_files system (suc index) files
remove_files system index (file text ∷ files) =
    let rest = remove_files system (suc index) files in
    if starts_with network_header text && system.unlink index
    then absent ∷ rest
    else file text ∷ files
remove_files system index (other ∷ files) = other ∷ files

unfoldable pub roll_back : NetSystem → List File → List (ℕ × Bytes) → SetupOutcome
roll_back system files links = record {
  files = remove_files system 0 files;
  links = links;
  result = err os_error;
}

unfoldable pub install : NetSystem → List File → List Bytes → List Bytes → SetupOutcome
install system files addresses configs =
    let linked = set_links system 0 addresses in
    let written = write_files system 0 files configs in
    if not (linked.1)
    then roll_back system files (linked.0)
    else if written.1
    then record { files = written.0; links = linked.0; result = ok tt }
    else roll_back system (written.0) (linked.0)

-- The changes, where the preparation succeeds.
unfoldable pub finish_setup :
    NetSystem → List File → Result BootError (List Bytes × List Bytes) → SetupOutcome
finish_setup system files (err e) = record { files = files; links = []; result = err e }
finish_setup system files (ok made) = install system files (made.0) (made.1)

unfoldable pub setup_macs : NetSystem → List File → SetupOutcome
setup_macs system files = finish_setup system files (prepare system files)
