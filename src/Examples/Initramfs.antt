-- ===== src/Examples/Initramfs.antt =====
-- An initramfs with two drivers as modules.
use edgepi_e87n.Base.{String, List, [], ◌∷◌, ◌++◌, ◌≡◌, ◌≢◌, refl, Bytes, codes, lines, ok, err}
use edgepi_e87n.Initramfs.{
  is_blank, strip_here, lstrip_slash, rstrip_slash, has_double_slash, is_canonical, safe_path,
  ends_behind, key_of, suffix_checked, module_key,
}
use edgepi_e87n.Initramfs.Listing.{
  value_of, is_word, set_line, unset_line, setting_line, add_line, read_options, drivers,
  prerequisites, is_set, check_drivers, requested, is_ko_end, has_ko_end, module_path, add_module,
  without_usr, is_root_line, add_name, read_listing, keys_of, dep_parts, add_dep, read_deps,
}
use edgepi_e87n.Initramfs.Search.{
  deps_of, extend, remove, enter, step, loop, graph_size, requests, search,
}
use edgepi_e87n.Initramfs.Verify.{
  configs_of, release_of, is_alnum, is_release, has_metadata, check_modules, verify,
}
use edgepi_e87n.Initramfs.{out_of_fuel}
use edgepi_e87n.Initramfs.Listing.{Setting, Listed}
use edgepi_e87n.Initramfs.Search.{Needs}
use edgepi_e87n.Initramfs.Search.Ends.{search-ends}
use edgepi_e87n.Initramfs.Verify.{Files}
use edgepi_e87n.Initramfs.Verify.Sound.{IsVerified, verify-IsProvided}

abbrev line : String → Bytes
line text = codes text ++ (10 ∷ [])

abbrev storage_module : Bytes
storage_module = codes "kernel/drivers/usb/storage/usb-storage.ko"

abbrev uas_module : Bytes
uas_module = codes "kernel/drivers/usb/storage/uas.ko"

abbrev files : Files
files = record {
  boot_names = codes "config-6.18" ∷ codes "Image" ∷ [];
  config =
      line "CONFIG_MODULES=y"
      ++ (line "CONFIG_USB_COMMON=y"
          ++ (line "CONFIG_USB=y"
              ++ (line "CONFIG_USB_XHCI_HCD=y"
                  ++ (line "CONFIG_USB_XHCI_MTK=y"
                      ++ (line "CONFIG_USB_STORAGE=m"
                          ++ (line "CONFIG_USB_UAS=m"
                              ++ (line "CONFIG_SCSI_COMMON=y"
                                  ++ (line "CONFIG_SCSI=y"
                                      ++ (line "CONFIG_BLK_DEV_SD=y"
                                          ++ line "CONFIG_PHY_MTK_TPHY=y")))))))));
  listing =
      line "."
      ++ (line "init"
          ++ (line "usr/lib/modules/6.18/modules.dep"
              ++ (line "usr/lib/modules/6.18/modules.alias"
                  ++ (line "usr/lib/modules/6.18/kernel/drivers/usb/storage/usb-storage.ko.xz"
                      ++ line "usr/lib/modules/6.18/kernel/drivers/usb/storage/uas.ko.xz"))));
  modules_dep =
      line "kernel/drivers/usb/storage/usb-storage.ko.xz:"
      ++ line "kernel/drivers/usb/storage/uas.ko.xz: kernel/drivers/usb/storage/usb-storage.ko.xz";
}

verified : verify files ≡ ok (uas_module ∷ storage_module ∷ [])
unfolding is_blank strip_here lstrip_slash rstrip_slash has_double_slash is_canonical safe_path
    ends_behind key_of suffix_checked module_key value_of is_word set_line unset_line setting_line
    add_line read_options drivers prerequisites is_set check_drivers requested is_ko_end has_ko_end
    module_path add_module without_usr is_root_line add_name read_listing keys_of dep_parts add_dep
    read_deps deps_of extend remove enter step loop graph_size requests search configs_of release_of
    is_alnum is_release has_metadata check_modules verify
verified = refl

verify-IsProvided_example :
    (options : List Setting) × (release : Bytes) × (listed : Listed) × (release_of
        (configs_of (files.boot_names))
      ≡ ok release)
    × (read_options (lines (files.config)) [] ≡ ok options)
    × (read_listing release (lines (files.listing)) (record { names = []; modules = [] })
        ≡ ok listed)
    × IsVerified files listed (requested options drivers) (uas_module ∷ storage_module ∷ [])
verify-IsProvided_example = verify-IsProvided files (uas_module ∷ storage_module ∷ []) verified

abbrev graph : List Needs
graph =
    record { name = uas_module; deps = storage_module ∷ [] }
    ∷ record { name = storage_module; deps = uas_module ∷ [] }
    ∷ []

search-ends_example :
    search (uas_module ∷ storage_module ∷ []) graph (uas_module ∷ []) ≢ err out_of_fuel
search-ends_example = search-ends (uas_module ∷ storage_module ∷ []) graph (uas_module ∷ [])
