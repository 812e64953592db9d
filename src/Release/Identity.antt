-- ===== src/Release/Identity.antt =====
-- scripts/release_identity.py: the names of a release, out of the version of the firmware or of the display
-- package.
use edgepi_e87n.Base.{
  String, Bool, false, not, ◌&&◌, ◌||◌, [], ◌∷◌, ◌++◌, leb, ◌==◌, if◌then◌else◌, length, all, Bytes,
  codes, is_digit, strip, ◌≈◌, Result, ok, err, ◌>>=◌, ◌>>◌, require,
}
use edgepi_e87n.Release.{ReleaseError, invalid}
use edgepi_e87n.Release.Texts.{is_alnum, matches_safe, contains}

-- [0-9][A-Za-z0-9.+~\-]*
unfoldable pub is_display_version : Bytes → Bool
is_display_version [] = false
is_display_version (c ∷ cs) =
    is_digit c && all (λ d. is_alnum d || d == b'.' || d == b'+' || d == b'~' || d == b'-') cs

-- display_version, of the text of the file VERSION
unfoldable pub display_version : Bytes → Result ReleaseError Bytes
display_version content = do
  require (is_display_version (strip content)) (invalid "invalid display package version")
  ok (strip content)

-- version.replace("+", ".plus.").replace("~", ".tilde.")
unfoldable pub spelled : Bytes → Bytes
spelled [] = []
spelled (c ∷ cs) =
    let rest = spelled cs in
    if c == b'+'
    then codes ".plus." ++ rest
    else if c == b'~'
    then codes ".tilde." ++ rest
    else c ∷ rest

unfoldable pub tag_version : Bytes → Result ReleaseError Bytes
tag_version version = do
  require (leb (length (spelled version)) 48 && matches_safe (spelled version))
      (invalid "version cannot be represented safely in a release tag")
  ok (spelled version)

-- The text of a kind's version: of the build configuration, or of the file VERSION.
pub record Versions : Type 0 where
  pub firmware : Bytes
  pub display : Bytes

unfoldable pub tag_text : String → Versions → Result ReleaseError Bytes
tag_text kind versions =
    if kind ≈ "image"
    then (tag_version versions.firmware >>= λ v. ok (codes "e87n-image-v" ++ v))
    else if kind ≈ "display"
    then (display_version versions.display >>= λ d.
        tag_version d >>= λ v. ok (codes "e87n-display-v" ++ v))
    else err (invalid "invalid release kind")

unfoldable pub release_tag : String → Versions → Result ReleaseError Bytes
release_tag kind versions = do
  value ← tag_text kind versions
  require (matches_safe value && not (contains (codes "..") value))
      (invalid "derived release tag is invalid")
  ok value

unfoldable pub image_filename : Versions → Result ReleaseError Bytes
image_filename versions = do
  version ← tag_version versions.firmware
  ok (codes "edgepi-e87n-debian_" ++ (version ++ codes "_arm64-uboot-firmware.tar"))

unfoldable pub display_filename : Versions → Result ReleaseError Bytes
display_filename versions = do
  version ← display_version versions.display
  ok (codes "e87n-display_" ++ (version ++ codes "_all.deb"))
