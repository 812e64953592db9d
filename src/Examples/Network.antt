-- ===== src/Examples/Network.antt =====
-- The factory MAC addresses, on a board with a small network file.
use edgepi_e87n.Base.{
  ℕ, ◌+◌, ◌≡◌, refl, true, false, List, [], ◌∷◌, ◌++◌, some, Bytes, codes, decimal, ok,
}
use edgepi_e87n.Boot.{
  has_entry, is_present, part_at, same_numbers, is_device, check_part, check_parts, unique, roots,
  check_board, check_root, validate_live,
}
use edgepi_e87n.Boot.Resize.{open_partition}
use edgepi_e87n.Boot.Macs.{is_unicast, mac_text, factory_macs, is_mac}
use edgepi_e87n.Boot.Network.{
  count_section, has_sections, directive, read_value, read_stripped, read_network, is_dhcp,
  network_header, port_network, outputs, port_networks,
}
use edgepi_e87n.Boot.Setup.{
  alias, File, absent, managed_network_file, check_files, check_interface, validate_interfaces,
  NetSystem, stored, failed_behind, check_alias, prepare, set_links, write_file, write_files,
  remove_files, roll_back, install, finish_setup, setup_macs,
}
use edgepi_e87n.Boot.Setup.Transaction.{Transaction, setup_macs-Transaction}
use edgepi_e87n.Examples.Audit.{board, stored as factory_bytes}

abbrev line : Bytes → Bytes
line text = text ++ (10 ∷ [])

abbrev netplan : Bytes
netplan =
    line (codes "[Match]")
    ++ (line (codes "Name=e*") ++ (line (codes "[Network]") ++ line (codes "DHCP=yes")))

abbrev mac : ℕ → Bytes
mac digit = codes "/soc_netsys/ethernet@15100000/mac@" ++ (digit ∷ [])

abbrev wired : NetSystem
wired = record {
  snapshot = ok board;
  aliases = λ i. some (mac (b'0' + i) ++ (0 ∷ []));
  eth0 = some record { node = mac b'0'; flags = 0x1002 };
  eth1 = some record { node = mac b'1'; flags = 0x1002 };
  base = some netplan;
  has_dropins = false;
  opened = some (codes "179:2");
  factory = factory_bytes;
  is_redirected = false;
  ip_link = λ i. true;
  replace = λ i. stored;
  unlink = λ i. true;
}

abbrev files : List File
files = absent ∷ absent ∷ []

set_up : (setup_macs wired files).result ≡ ok tt
unfolding setup_macs finish_setup prepare validate_live check_board same_numbers check_parts part_at
    check_part is_device unique check_root roots check_alias alias decimal has_entry is_present
    validate_interfaces check_interface open_partition factory_macs is_unicast mac_text is_mac
    port_networks has_sections count_section read_network read_stripped read_value directive is_dhcp
    outputs check_files managed_network_file install set_links write_files write_file
set_up = refl

undone : (setup_macs record wired { replace = λ i. failed_behind } files).files ≡ files
unfolding setup_macs finish_setup prepare validate_live check_board same_numbers check_parts part_at
    check_part is_device unique check_root roots check_alias alias decimal has_entry is_present
    validate_interfaces check_interface open_partition factory_macs is_unicast mac_text is_mac
    port_networks has_sections count_section read_network read_stripped read_value directive is_dhcp
    outputs check_files managed_network_file install set_links write_files write_file roll_back
    remove_files port_network network_header
undone = refl

setup_macs-Transaction_example : Transaction wired files (setup_macs wired files)
setup_macs-Transaction_example = setup_macs-Transaction wired files refl (λ i. refl)
