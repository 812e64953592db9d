-- ===== src/Release/Main.antt =====
-- `main` of scripts/ci-publish-release.py: the checks of the options, the staging, the preflight and the
-- publication, with the exit status.
pub mod Ends
use edgepi_e87n.Base.{ℕ, String, List, [], Option, none, some, Result, ok, err}
use edgepi_e87n.Release.{ReleaseError, invalid, os_error, Call, Service, Args, AssetFile}
use edgepi_e87n.Release.Job.{Job, ◌>>=◌, ◌>>◌, pure}
use edgepi_e87n.Release.Remote.{preflight}
use edgepi_e87n.Release.Publish.{publish}
use edgepi_e87n.Release.Staging.{Policy}
use edgepi_e87n.Release.Options.{Options, check_options, staged, args_of}

module _ (service : Service) where
  unfoldable pub publish_staged : Args → Option (List AssetFile) → Job (Unit {0})
  publish_staged args none = pure (ok tt)
  publish_staged args (some files) = publish service args files

  unfoldable pub run : Policy → Options → Job (Unit {0})
  run policy o = do
    pure (check_options policy o)
    files ← pure (staged policy o o.assets)
    preflight service (args_of o)
    publish_staged (args_of o) files

-- The exit status; an error that `main` does not catch has none.
unfoldable pub exit_of : Result ReleaseError (Unit {0}) → Option ℕ
exit_of (ok tt) = some 0
exit_of (err (invalid message)) = some 1
exit_of (err os_error) = some 1
exit_of (err _) = none

unfoldable pub main : Service → Policy → Options → Option ℕ
main service policy o = exit_of ((run service policy o []).0)
