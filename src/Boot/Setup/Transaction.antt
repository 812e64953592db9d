-- ===== src/Boot/Setup/Transaction.antt =====
-- `setup_macs` as a transaction over the two runtime network files.
use edgepi_e87n.Base.{
  ℕ, suc, ◌==◌, Bool, true, false, not, List, [], ◌∷◌, ◌++◌, map, Option, none, some, length, all,
  Bytes, starts_with, kept_lines, Result, ok, err, require, or_raise, ◌≡◌, ◌≢◌, ◌⊎◌, inl, inr, refl,
  arith, subst, sym, ap, ◌∙◌, &&_true, &&_intro, Bool-cases, bind-eq-ok,
}
use edgepi_e87n.Boot.{
  BootError, two_macs, bad_structure, not_dhcp, os_error, no_base, dropins, redirected,
  validate_live,
}
use edgepi_e87n.Boot.Resize.{open_partition}
use edgepi_e87n.Boot.Macs.{factory_macs, is_mac}
use edgepi_e87n.Boot.Network.{
  network_header, port_network, outputs, port_networks, has_sections, is_dhcp, read_network,
}
use edgepi_e87n.Boot.Setup.{
  File, absent, file, other, managed_network_file, check_files, check_alias, validate_interfaces,
  NetSystem, Stored, stored, failed_before, failed_behind, SetupOutcome, prepare, set_links,
  write_files, remove_files, write_file, roll_back, install, setup_macs, finish_setup,
}

unfoldable pub is_managed : File → Bool
is_managed absent = true
is_managed (file text) = starts_with network_header text
is_managed other = false

unfoldable pub is_absent : File → Bool
is_absent absent = true
is_absent _ = false

starts_with-append : (a b : Bytes) → starts_with a (a ++ b) ≡ true
starts_with-append [] b = refl
starts_with-append (x ∷ a) b = ground (arith, starts_with-append a b)

ok-injective : {A : Type 0} (a b : A) → ◌≡◌ {A = Result BootError A} (ok a) (ok b) → a ≡ b
ok-injective a b h = cc h

or_raise-some :
    {A : Type 0} (o : Option A) (e : BootError) (a : A) → or_raise o e ≡ ok a → o ≡ some a
or_raise-some none e a h = cc h
or_raise-some (some b) e a h = ap some (ok-injective b a h)

managed-is_managed : (f : File) → managed_network_file f ≡ ok tt → is_managed f ≡ true
unfolding managed_network_file is_managed
managed-is_managed absent h = refl
managed-is_managed (file text) h = ground arith
managed-is_managed other h = ground arith

check_files-is_managed :
    (files : List File) → check_files files ≡ ok tt → all is_managed files ≡ true
unfolding check_files
check_files-is_managed [] h = refl
check_files-is_managed (f ∷ files) h =
    let (u, first, more) = bind-eq-ok (managed_network_file f) _ h in
    ground (arith, managed-is_managed f first, check_files-is_managed files more)

outputs-is_managed :
    (lines : List Bytes) (index : ℕ) (addresses configs : List Bytes)
    → outputs lines index addresses ≡ ok configs
    → (all is_managed (map file configs) ≡ true) × (length configs ≡ length addresses)
unfolding outputs port_network is_managed
outputs-is_managed lines index [] configs h = ground (arith, h)
outputs-is_managed lines index (address ∷ addresses) configs h =
    let (u, form, h₁) = bind-eq-ok (require (is_mac 5 address) _) _ h in
    let (rest, more, h₂) = bind-eq-ok (outputs lines (suc index) addresses) _ h₁ in
    let (managed, long) = outputs-is_managed lines (suc index) addresses rest more in
    let is_configs : port_network lines index address ∷ rest ≡ configs =
      ok-injective _ configs h₂ in
    rw (sym is_configs)
      ((&&_intro _ _ (starts_with-append network_header _) managed), omega (arith, long))

remove_files-is_absent :
    (system : NetSystem) (index : ℕ) (files : List File)
    → ((i : ℕ) → system.unlink i ≡ true)
    → all is_managed files ≡ true
    → all is_absent (remove_files system index files) ≡ true
unfolding remove_files is_managed is_absent
remove_files-is_absent system index [] unlinks managed = refl
remove_files-is_absent system index (absent ∷ files) unlinks managed =
    remove_files-is_absent system (suc index) files unlinks managed
remove_files-is_absent system index (file text ∷ files) unlinks managed =
    ground (arith, unlinks index, remove_files-is_absent system (suc index) files unlinks)
remove_files-is_absent system index (other ∷ files) unlinks managed = ground (arith, managed)

write_file-is_managed :
    (s : Stored) (text : Bytes) (f : File) (files : List File) (rest : List File × Bool)
    → all is_managed (f ∷ files) ≡ true
    → is_managed (file text) ≡ true
    → all is_managed (rest.0) ≡ true
    → all is_managed (write_file s text f files rest).0 ≡ true
unfolding write_file
write_file-is_managed stored text f files rest old new more =
    &&_intro (is_managed (file text)) (all is_managed (rest.0)) new more
write_file-is_managed failed_before text f files rest old new more = old
write_file-is_managed failed_behind text f files rest old new more =
    &&_intro (is_managed (file text)) (all is_managed files) new
      (&&_true (is_managed f) (all is_managed files) old).1

write_files-is_managed :
    (system : NetSystem) (index : ℕ) (files : List File) (configs : List Bytes)
    → all is_managed files ≡ true
    → all is_managed (map file configs) ≡ true
    → all is_managed (write_files system index files configs).0 ≡ true
unfolding write_files
write_files-is_managed system index [] configs old new = refl
write_files-is_managed system index (f ∷ files) [] old new = old
write_files-is_managed system index (f ∷ files) (text ∷ configs) old new =
    let (first, others) =
      &&_true (is_managed (file text)) (all is_managed (map file configs)) new in
    write_file-is_managed (system.replace index) text f files _ old first (
      write_files-is_managed system (suc index) files configs
        (&&_true (is_managed f) (all is_managed files) old).1 others)

write_file-all :
    (s : Stored) (text : Bytes) (f : File) (files : List File) (rest : List File × Bool)
    → (write_file s text f files rest).1 ≡ true
    → ((write_file s text f files rest).0 ≡ file text ∷ rest.0) × (rest.1 ≡ true)
unfolding write_file
write_file-all stored text f files rest h = (refl, h)
write_file-all failed_before text f files rest h = ground (arith, h)
write_file-all failed_behind text f files rest h = ground (arith, h)

write_files-all :
    (system : NetSystem) (index : ℕ) (files : List File) (configs : List Bytes)
    → length files ≡ length configs
    → (write_files system index files configs).1 ≡ true
    → (write_files system index files configs).0 ≡ map file configs
unfolding write_files
write_files-all system index [] [] long h = refl
write_files-all system index [] (text ∷ configs) long h = ground (arith, long)
write_files-all system index (f ∷ files) [] long h = ground (arith, long)
write_files-all system index (f ∷ files) (text ∷ configs) long h =
    let (here, more) = write_file-all (system.replace index) text f files _ h in
    here
    ∙ ap (λ l. file text ∷ l)
        (write_files-all system (suc index) files configs (omega (arith, long)) more)

-- No file is changed, no command is run.
abbrev Refused : List File → SetupOutcome → Type 0
Refused files o = (o.files ≡ files) × (o.links ≡ []) × (o.result ≢ ok tt)

-- Neither file is left.
abbrev RolledBack : SetupOutcome → Type 0
RolledBack o = (all is_absent o.files ≡ true) × (o.result ≢ ok tt)

-- Each interface was given its factory address, and the files are the two texts.
abbrev Installed : NetSystem → SetupOutcome → Type 0
Installed system o =
    (base first second : Bytes) × (configs : List Bytes) × (system.base ≡ some base)
    × (factory_macs system.factory ≡ ok (first, second))
    × (port_networks base (first ∷ second ∷ []) ≡ ok configs)
    × (o.files ≡ map file configs)
    × (o.links ≡ (0, first) ∷ (1, second) ∷ [])
    × (o.result ≡ ok tt)

abbrev pub Transaction : NetSystem → List File → SetupOutcome → Type 0
Transaction system files o = Refused files o ⊎ (RolledBack o ⊎ Installed system o)

-- What `prepare` has established.
abbrev Prepared : NetSystem → List File → List Bytes × List Bytes → Type 0
Prepared system files made =
    (base first second : Bytes) × (system.base ≡ some base)
    × (factory_macs system.factory ≡ ok (first, second))
    × (made.0 ≡ first ∷ second ∷ [])
    × (port_networks base (first ∷ second ∷ []) ≡ ok (made.1))
    × (all is_managed files ≡ true)

prepare-Prepared :
    (system : NetSystem) (files : List File) (made : List Bytes × List Bytes)
    → prepare system files ≡ ok made
    → Prepared system files made
unfolding prepare
prepare-Prepared system files made h =
    let (s, h0, h1) = bind-eq-ok system.snapshot _ h in
    let (u1, v1, h2) = bind-eq-ok (validate_live s false) _ h1 in
    let (u2, v2, h3) = bind-eq-ok (check_alias system 0) _ h2 in
    let (u3, v3, h4) = bind-eq-ok (check_alias system 1) _ h3 in
    let (eth0, v4, h5) = bind-eq-ok (or_raise system.eth0 os_error) _ h4 in
    let (eth1, v5, h6) = bind-eq-ok (or_raise system.eth1 os_error) _ h5 in
    let (u6, v6, h7) = bind-eq-ok (validate_interfaces eth0 eth1) _ h6 in
    let (base, v7, h8) = bind-eq-ok (or_raise system.base no_base) _ h7 in
    let (u8, v8, h9) = bind-eq-ok (require (not system.has_dropins) dropins) _ h8 in
    let (u9, v9, h10) = bind-eq-ok (open_partition 2 s system.opened) _ h9 in
    let (macs, v10, h11) = bind-eq-ok (factory_macs system.factory) _ h10 in
    let (configs, v11, h12) = bind-eq-ok (port_networks base (macs.0 ∷ macs.1 ∷ [])) _ h11 in
    let (u12, v12, h13) = bind-eq-ok (require (not system.is_redirected) redirected) _ h12 in
    let (u13, v13, h14) = bind-eq-ok (check_files files) _ h13 in
    let is_made : (macs.0 ∷ macs.1 ∷ [], configs) ≡ made = ok-injective _ made h14 in
    (
      base,
      macs.0,
      macs.1,
      or_raise-some system.base no_base base v7,
      v10,
      sym (ap (λ p. p.0) is_made),
      v11 ∙ ap (λ p. ok (p.1)) is_made,
      check_files-is_managed files v13,
    )

port_networks-is_managed :
    (base : Bytes) (addresses configs : List Bytes)
    → port_networks base addresses ≡ ok configs
    → (all is_managed (map file configs) ≡ true) × (length configs ≡ length addresses)
unfolding port_networks
port_networks-is_managed base addresses configs h =
    let (u1, v1, h1) = bind-eq-ok (require (length addresses == 2) two_macs) _ h in
    let (u2, v2, h2) = bind-eq-ok (require (has_sections (kept_lines base)) bad_structure) _ h1 in
    let (r, v3, h3) =
      bind-eq-ok (read_network (kept_lines base) record { section = []; names = []; dhcp = [] }) _
        h2 in
    let (u4, v4, h4) = bind-eq-ok (require (is_dhcp r) not_dhcp) _ h3 in
    outputs-is_managed (kept_lines base) 0 addresses configs h4

roll_back-RolledBack :
    (system : NetSystem) (files : List File) (links : List (ℕ × Bytes))
    → ((i : ℕ) → system.unlink i ≡ true)
    → all is_managed files ≡ true
    → RolledBack (roll_back system files links)
unfolding roll_back
roll_back-RolledBack system files links unlinks managed =
    (remove_files-is_absent system 0 files unlinks managed, λ h. cc h)

set_links-two :
    (system : NetSystem) (first second : Bytes)
    → (set_links system 0 (first ∷ second ∷ [])).1 ≡ true
    → (set_links system 0 (first ∷ second ∷ [])).0 ≡ (0, first) ∷ (1, second) ∷ []
unfolding set_links
set_links-two system first second h = ground (arith, h)

install-ends :
    (system : NetSystem) (files : List File) (first second : Bytes) (configs : List Bytes)
    → length files ≡ length configs
    → ((i : ℕ) → system.unlink i ≡ true)
    → all is_managed files ≡ true
    → all is_managed (map file configs) ≡ true
    → RolledBack (install system files (first ∷ second ∷ []) configs)
      ⊎ (((install system files (first ∷ second ∷ []) configs).files ≡ map file configs)
          × ((install system files (first ∷ second ∷ []) configs).links
              ≡ (0, first) ∷ (1, second) ∷ [])
          × ((install system files (first ∷ second ∷ []) configs).result ≡ ok tt))
unfolding install
install-ends system files first second configs long unlinks old new =
    elim (Bool-cases (set_links system 0 (first ∷ second ∷ [])).1) [
      | inr failed ↦ rw (failed) (inl (roll_back-RolledBack system files _ unlinks old))
      | inl linked ↦ elim (Bool-cases (write_files system 0 files configs).1) [
        | inr failed ↦
            rw (linked, failed)
              (inl (
                roll_back-RolledBack system _ _ unlinks
                  (write_files-is_managed system 0 files configs old new)))
        | inl written ↦
            rw (linked, written)
              (inr (
                write_files-all system 0 files configs long written,
                set_links-two system first second linked,
                refl,
              ))
      ]
    ]

finish_setup-Transaction :
    (system : NetSystem) (files : List File)
    → length files ≡ 2
    → ((i : ℕ) → system.unlink i ≡ true)
    → (r : Result BootError (List Bytes × List Bytes)) → prepare system files ≡ r
    → Transaction system files (finish_setup system files r)
unfolding finish_setup
finish_setup-Transaction system files two unlinks (err e) failed = inl (refl, refl, λ h. cc h)
finish_setup-Transaction system files two unlinks (ok made) prepared =
    let (base, first, second, is_base, macs, addresses, configs, old) =
      prepare-Prepared system files made prepared in
    let (new, long) = port_networks-is_managed base (first ∷ second ∷ []) (made.1) configs in
    subst (λ a. Transaction system files (install system files a (made.1))) (sym addresses)
      (elim (install-ends system files first second (made.1) (omega (arith, two, long)) unlinks old
        new) [
          | inl undone ↦ inr (inl undone)
          | inr (written, linked, done) ↦
              inr (inr (base, first, second, made.1, is_base, macs, configs, written, linked, done))
        ])

-- `setup_macs` is a transaction, for two paths, where the files it has written can be removed and nothing
-- else changes them. It ends in one of three ways: the result is an error, neither file has changed and
-- no command was run; or the result is an error and neither file is left; or it succeeds, the two
-- interfaces were given the two factory addresses, first to first, and the two files are the texts that
-- `port_networks` makes for these addresses from the configuration of netplan.
pub setup_macs-Transaction :
    (system : NetSystem) (files : List File)
    → length files ≡ 2
    → ((i : ℕ) → system.unlink i ≡ true)
    → Transaction system files (setup_macs system files)
unfolding setup_macs
setup_macs-Transaction system files two unlinks =
    finish_setup-Transaction system files two unlinks (prepare system files) refl
