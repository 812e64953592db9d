-- ===== src/Boot/Network.antt =====
-- `port_networks`: the two network files made from the one that netplan generates, as ASCII text.
use edgepi_e87n.Base.{
  ℕ, suc, ◌==◌, Bool, false, not, ◌&&◌, ◌||◌, List, [], ◌∷◌, ◌++◌, none, some, ◌+◌, if◌then◌else◌,
  length, Bytes, ◌=ᵇ◌, take, drop, codes, decimal, starts_with, ends_with, find_byte, kept_lines,
  strip, rstrip, Result, ok, err, ◌>>=◌, ◌>>◌, require,
}
use edgepi_e87n.Boot.{
  BootError, two_macs, bad_structure, continued, bad_directive, bad_match, mac_override, not_dhcp,
  bad_address,
}
use edgepi_e87n.Boot.Macs.{is_mac}

-- line.strip().startswith("[")
abbrev is_section : Bytes → Bool
is_section line = starts_with (codes "[") (strip line)

-- sections.count(name), over the stripped section lines
unfoldable pub count_section : Bytes → List Bytes → ℕ
count_section name [] = 0
count_section name (line ∷ lines) =
    let rest = count_section name lines in
    if is_section line && strip line =ᵇ name then suc rest else rest

unfoldable pub has_sections : List Bytes → Bool
has_sections lines =
    count_section (codes "[Match]") lines == 1 && count_section (codes "[Network]") lines == 1

-- `section`, `names` and `dhcp` of the first loop
pub record Reading : Type 0 where
  pub section : Bytes
  pub names : List Bytes
  pub dhcp : List Bytes

unfoldable pub directive : Bytes → Bytes → Reading → Result BootError Reading
directive key setting r =
    let is_match = r.section =ᵇ codes "[Match]" in
    do
      require (not is_match || (key =ᵇ codes "Name" && setting =ᵇ codes "e*")) bad_match
      require (not (r.section =ᵇ codes "[Link]" && key =ᵇ codes "MACAddress")) mac_override
      ok record {
        section = r.section;
        names = if is_match then r.names ++ (setting ∷ []) else r.names;
        dhcp =
            if r.section =ᵇ codes "[Network]" && key =ᵇ codes "DHCP"
            then r.dhcp ++ (setting ∷ [])
            else r.dhcp;
      }

unfoldable pub read_value : Bytes → Reading → Result BootError Reading
read_value value r = elim (find_byte b'=' value) [
  | none ↦ err bad_directive
  | some i ↦ directive (take i value) (drop (i + 1) value) r
]

unfoldable pub read_stripped : Bytes → Reading → Result BootError Reading
read_stripped value r =
    let checked = require (not (ends_with b'\\' value)) continued in
    if value =ᵇ [] || starts_with (codes "#") value || starts_with (codes ";") value
    then ok r
    else if starts_with (codes "[") value
    then (checked >> ok record r { section = value })
    else (checked >> read_value value r)

unfoldable pub read_network : List Bytes → Reading → Result BootError Reading
read_network [] r = ok r
read_network (line ∷ lines) r = do more ← read_stripped (strip line) r; read_network lines more

-- The line that stands for Name=e* in the file of one port.
unfoldable pub port_match : ℕ → Bytes
port_match index =
    codes "Name=e*" ++ (10 ∷ codes "Property=ID_NET_NAME_ONBOARD=end") ++ decimal index ++ (10 ∷ [])

-- "".join(result), from the section that is open
unfoldable pub rewrite_lines : ℕ → Bytes → List Bytes → Bytes
rewrite_lines index section [] = []
rewrite_lines index section (line ∷ lines) =
    let current = if is_section line then strip line else section in
    let shown =
      if current =ᵇ codes "[Match]" && starts_with (codes "Name=") (strip line)
      then port_match index
      else line in
    shown ++ rewrite_lines index current lines

unfoldable pub network_header : Bytes
network_header = codes "# Generated by e87n factory-boot; volatile, do not edit." ++ (10 ∷ [])

unfoldable pub port_network : List Bytes → ℕ → Bytes → Bytes
port_network lines index address =
    network_header
    ++ (rstrip (rewrite_lines index [] lines)
        ++ ((10 ∷ 10 ∷ codes "[Link]") ++ ((10 ∷ codes "MACAddress=") ++ (address ++ (10 ∷ [])))))

unfoldable pub outputs : List Bytes → ℕ → List Bytes → Result BootError (List Bytes)
outputs lines index [] = ok []
outputs lines index (address ∷ addresses) = do
  require (is_mac 5 address) bad_address
  rest ← outputs lines (suc index) addresses
  ok (port_network lines index address ∷ rest)

abbrev only : Bytes → List Bytes → Bool
only text (found ∷ []) = found =ᵇ text
only text _ = false

-- names == ["e*"] and dhcp == ["yes"]
unfoldable pub is_dhcp : Reading → Bool
is_dhcp r = only (codes "e*") r.names && only (codes "yes") r.dhcp

unfoldable pub port_networks : Bytes → List Bytes → Result BootError (List Bytes)
port_networks base addresses = do
  require (length addresses == 2) two_macs
  require (has_sections (kept_lines base)) bad_structure
  r ← read_network (kept_lines base) record { section = []; names = []; dhcp = [] }
  require (is_dhcp r) not_dhcp
  outputs (kept_lines base) 0 addresses
