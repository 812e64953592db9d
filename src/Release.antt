-- ===== src/Release.antt =====
-- The publication of a release by scripts/ci-publish-release.py, as a program that talks to the
-- hosting service: what it may ask, what it may be told, and what it is given.
pub mod Texts
pub mod Job
pub mod Checks
pub mod Remote
pub mod Publish
pub mod Plan
pub mod Mirror
pub mod Identity
pub mod Staging
pub mod Options
pub mod Main
use edgepi_e87n.Base.{ℕ, String, Bool, Option, List, Bytes}
use edgepi_e87n.Json.{ℤ, Value}

-- ValueError and OSError end `main` with status 1; the source does not catch the other two.
pub data ReleaseError : Type 0 where
  invalid : String → ReleaseError
  os_error type_error key_error : ReleaseError

-- The paths behind repos/{repository}/ that the program reads.
pub data Endpoint : Type 0 where
  commits : String → Endpoint
  tag_ref : String → Endpoint
  release_by_tag : String → Endpoint
  release_page : ℕ → Endpoint
  release_by_id : ℕ → Endpoint
  release_assets : ℕ → Endpoint
  tag_object : String → Endpoint

-- The invocations of `gh`. `create` has the tag, the commit, the title and the file of the notes. A `retag` is the `release edit` that gives a draft another tag.
pub data Call : Type 0 where
  auth_status : Call
  get : Endpoint → Call
  view : String → Call
  delete_release : ℕ → Call
  delete_tag : String → Call
  create : String → String → String → String → Call
  upload : String → List String → Call
  edit : String → Call
  retag : String → String → String → String → Call

-- What a run of `gh` ends with; `unstarted` is the OSError of a missing program.
pub data Answer : Type 0 where
  timed_out unstarted : Answer
  answered : ℤ → Bytes → Answer

-- The world: `reply` is the answer of gh and the service behind it to a call, given all the calls
-- before it, the last one first. `json_loads` is the json module, `float_is` the comparison of a
-- JSON float with an int, and `title` is `release_title` of release_identity.py.
pub record Service : Type 0 where
  pub reply : List Call → Call → Answer
  pub json_loads : Bytes → Option Value
  pub float_is : String → ℕ → Bool
  pub title : String → String

pub record Args : Type 0 where
  pub kind : String
  pub source_commit : String
  pub tag : String
  pub replace_existing : Bool
  pub replacement_id : String

-- An entry of `files`: its name with the path, the size and the SHA-256 that stand behind it.
pub record AssetFile : Type 0 where
  pub name : String
  pub size : ℕ
  pub sha256 : String
