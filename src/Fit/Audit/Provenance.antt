-- ===== src/Fit/Audit/Provenance.antt =====
-- The payloads that `check_fit` returns, and the command line of the kernel.
use edgepi_e87n.Base.{
  words, ◌≡◌, inl, inr, ap, subst, ◌∙◌, true, false, List, [], ◌++◌, Option, Option-cases, none,
  some, codes, arith, Bytes, =ᵇ-eq, ◌=ᵇ◌, Result, Result-cases, ok, err, ◌≢◌, bind-eq-ok,
}
use edgepi_e87n.Fdt.{FdtError, Property, fdt, header_of, block_of}
use edgepi_e87n.Fdt.Dictionary.{IsDictionary, fdt-IsDictionary}
use edgepi_e87n.Fit.{
  Codecs, from_fdt, value_at, holds, node_of, Image, kernel_image, ramdisk_image, fdt_image,
  check_image,
}
use edgepi_e87n.Fit.Tree.{bootargs, args_of, check_args, check_tree}
use edgepi_e87n.Fit.Audit.{Payloads, check_images, check_fit}
use edgepi_e87n.Fit.Audit.Memory.{check_fit-Steps, check_args-eq}

-- The payload is the `data` of its image node, not empty, and has the hash that stands there.
pub record IsPayload (c : Codecs) (props : List Property) (i : Image) (payload : Bytes)
    : Type 0 where
  pub stored : value_at (node_of i) (codes "data") props ≡ some payload
  pub nonempty : (payload =ᵇ []) ≡ false
  pub hash : value_at (node_of i ++ codes "/hash-1") (codes "value") props ≡ some (c.sha256 payload)

holds-eq : (o : Option Bytes) (value : Bytes) → holds o value ≡ true → o ≡ some value
holds-eq none value h = cc
holds-eq (some found) value h = ap (λ (b : Bytes). some b) (=ᵇ-eq found value h)

unstored :
    (c : Codecs) (i : Image) (props : List Property) {p : Bytes}
    → value_at (node_of i) (codes "data") props ≡ none
    → check_image c i props ≢ ok p
unfolding check_image
unstored c i props absent h = ground (arith, absent)

from_fdt-ok :
    (r : Result FdtError (List Property)) {props : List Property}
    → from_fdt r ≡ ok props
    → r ≡ ok props
from_fdt-ok (ok found) h = ground arith
from_fdt-ok (err e) h = cc

-- the last checks on the payload
tail_of :
    (c : Codecs) (i : Image) (props : List Property) (payload : Bytes) {p : Bytes}
    → value_at (node_of i) (codes "data") props ≡ some payload
    → check_image c i props ≡ ok p
    → (payload ≡ p)
      × ((payload =ᵇ []) ≡ false)
      × (holds (value_at (node_of i ++ codes "/hash-1") (codes "value") props) (c.sha256 payload)
          ≡ true)
unfolding check_image
tail_of c i props payload e h = (ground (arith, e), ground (arith, e), ground (arith, e))

check_image-IsPayload :
    (c : Codecs) (i : Image) (props : List Property) {payload : Bytes}
    → check_image c i props ≡ ok payload
    → IsPayload c props i payload
check_image-IsPayload c i props {payload} h =
    elim (Option-cases (value_at (node_of i) (codes "data") props)) [
      | inl absent ↦ absurd (unstored c i props absent h)
      | inr (found, e) ↦
          let (same, full, hash) = tail_of c i props found e h in
          subst (IsPayload c props i) same
            (record { stored = e; nonempty = full; hash = holds-eq _ (c.sha256 found) hash })
    ]

check_images-IsPayload :
    (c : Codecs) (props : List Property) {p : Payloads}
    → check_images c props ≡ ok p
    → IsPayload c props kernel_image p.kernel
      × IsPayload c props ramdisk_image p.ramdisk
      × IsPayload c props fdt_image p.fdt
unfolding check_images
check_images-IsPayload c props {p} h =
    let (kernel, a, rest) = bind-eq-ok (check_image c kernel_image props) _ h in
    let (ramdisk, b, rest') = bind-eq-ok (check_image c ramdisk_image props) _ rest in
    let (tree, d, last) = bind-eq-ok (check_image c fdt_image props) _ rest' in
    let same : record { kernel = kernel; ramdisk = ramdisk; fdt = tree } ≡ p =
      ground (arith, last) in
    (
      subst (λ q. IsPayload c props kernel_image q.kernel) same
          (check_image-IsPayload c kernel_image props a),
      subst (λ q. IsPayload c props ramdisk_image q.ramdisk) same
          (check_image-IsPayload c ramdisk_image props b),
      subst (λ q. IsPayload c props fdt_image q.fdt) same
          (check_image-IsPayload c fdt_image props d),
    )

-- Every payload that the audit returns is the data of its own image node, inside the structure
-- block of the firmware, not empty, and its SHA-256 is the one that the node records.
pub check_fit-IsPayload :
    (c : Codecs) (data' root_uuid : Bytes) {p : Payloads}
    → check_fit c data' root_uuid ≡ ok p
    → (props : List Property) × (fdt data' ≡ ok props)
      × IsPayload c props kernel_image p.kernel
      × IsPayload c props ramdisk_image p.ramdisk
      × IsPayload c props fdt_image p.fdt
      × IsDictionary (block_of (header_of data') data') props
check_fit-IsPayload c data' root_uuid {p} h =
    let s = check_fit-Steps c data' root_uuid h in
    let parsed = from_fdt-ok (fdt data') s.parsed in
    let (kernel, ramdisk, tree) = check_images-IsPayload c s.props s.images in
    (s.props, parsed, kernel, ramdisk, tree, fdt-IsDictionary data' parsed)

check_tree-args :
    (root_uuid : Bytes) (dt : List Property)
    → check_tree root_uuid dt ≡ ok tt
    → args_of dt ≡ ok (words (bootargs root_uuid))
unfolding check_tree
check_tree-args root_uuid dt h = elim (Result-cases (args_of dt)) [
  | inl (args, e) ↦
      let passed : check_args root_uuid args ≡ ok tt = ground (arith, e) in
      e ∙ ap (λ (a : List Bytes). ok a) (check_args-eq root_uuid args passed)
  | inr (e, failed) ↦ absurd (ground (arith, failed))
]

-- The kernel of an accepted firmware gets exactly the arguments of `bootargs`: no second root, no
-- other init.
pub check_fit-bootargs :
    (c : Codecs) (data' root_uuid : Bytes) {p : Payloads}
    → check_fit c data' root_uuid ≡ ok p
    → (dt : List Property) × (fdt p.fdt ≡ ok dt) × (args_of dt ≡ ok (words (bootargs root_uuid)))
check_fit-bootargs c data' root_uuid {p} h =
    let s = check_fit-Steps c data' root_uuid h in
    (s.dt, from_fdt-ok (fdt p.fdt) s.tree_parsed, check_tree-args root_uuid s.dt s.tree)
