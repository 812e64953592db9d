-- ===== src/Hardware/Saving.antt =====
-- `_save_config_at` of board-support/e87n/hardware.py, one system call after the other, with the states of
-- the configuration directory that the calls go through.
pub mod Atomic
use edgepi_e87n.Base.{Bool, true, false, List, [], ◌∷◌, Option, none, some, Result, ok, err}
use edgepi_e87n.Json.{Value, obj, Fields}
use edgepi_e87n.Hardware.{HardwareError}

-- What a file holds: a JSON document, or a text that is none, such as a part of one.
pub data Content : Type 0 where
  whole : Value → Content
  torn : Content

-- A file, and whether its content has been flushed to the storage (fsync).
pub record File : Type 0 where
  pub content : Content
  pub synced : Bool

-- /etc/e87n, its display.json, and the temporary file that the call creates.
pub record Disk : Type 0 where
  pub directory : Bool
  pub file : Option File
  pub temporary : Option File

-- The states that were left behind, the newest first, the present one, and how it stands.
pub record Trace : Type 0 where
  pub passed : List Disk
  pub now : Disk
  pub result : Result HardwareError (Unit {0})

-- How the system calls end, in the order in which they are made. `target` and `trusted` are the checks of
-- the old file and of the new one; `unlink` is ok where the file is removed or not found.
pub record SaveCalls : Type 0 where
  pub target : Result HardwareError (Unit {0})
  pub create : Result HardwareError (Unit {0})
  pub trusted : Result HardwareError (Unit {0})
  pub write : Result HardwareError (Unit {0})
  pub sync : Result HardwareError (Unit {0})
  pub replace : Result HardwareError (Unit {0})
  pub sync_directory : Result HardwareError (Unit {0})
  pub close : Result HardwareError (Unit {0})
  pub unlink : Result HardwareError (Unit {0})

abbrev pub same : Disk → Disk
same d = d

-- os.open with O_CREAT and O_EXCL: an empty file
abbrev pub created : Disk → Disk
created d = record d { temporary = some record { content = torn; synced = false } }

-- stream.write and stream.flush, and what an error may leave of them
abbrev pub written : Fields → Disk → Disk
written config d = record d {
  temporary = some record { content = whole (obj config); synced = false };
}

abbrev pub half_written : Disk → Disk
half_written d = record d { temporary = some record { content = torn; synced = false } }

abbrev sync_file : Option File → Option File
sync_file none = none
sync_file (some f) = some record f { synced = true }

-- os.fsync(fd)
abbrev pub synced_file : Disk → Disk
synced_file d = record d { temporary = sync_file d.temporary }

-- os.replace(temporary, _CONFIG_NAME)
abbrev pub moved : Disk → Disk
moved d = record d { file = d.temporary; temporary = none }

-- os.unlink(temporary)
abbrev pub removed : Disk → Disk
removed d = record d { temporary = none }

abbrev pub move : (Disk → Disk) → Result HardwareError (Unit {0}) → Trace → Trace
move f r t = record { passed = t.now ∷ t.passed; now = f t.now; result = r }

abbrev pub answered :
    Result HardwareError (Unit {0}) → (Disk → Disk) → (Disk → Disk) → Trace → Trace
answered (ok _) done failed t = move done (ok tt) t
answered (err e) done failed t = move failed (err e) t

abbrev pub unless_raised : Result HardwareError (Unit {0}) → Trace → Trace → Trace
unless_raised (ok _) t next = next
unless_raised (err e) t next = t

-- A system call, unless an exception has been raised before it: its answer, and what it does to the
-- directory where it succeeds and where it fails.
unfoldable pub call :
    Result HardwareError (Unit {0}) → (Disk → Disk) → (Disk → Disk) → Trace → Trace
call answer done failed t = unless_raised t.result t (answered answer done failed t)

-- the body of the `try`
unfoldable pub try_save : SaveCalls → Fields → Trace → Trace
try_save s config t =
    let checked = call s.trusted same same t in
    let filled = call s.write (written config) half_written checked in
    let flushed = call s.sync synced_file same filled in
    let replaced = call s.replace moved same flushed in call s.sync_directory same same replaced

abbrev pub unlinked : Result HardwareError (Unit {0}) → Trace → Trace
unlinked (ok _) t = move removed t.result t
unlinked (err e) t = move same (err e) t

-- the `finally` block: an exception of its own takes the place of the one before
unfoldable pub clean_up :
    Result HardwareError (Unit {0}) → Result HardwareError (Unit {0}) → Trace → Trace
clean_up (ok _) unlink t = unlinked unlink t
clean_up (err e) unlink t = move same (err e) t

abbrev pub begin : Disk → Trace
begin disk = record { passed = []; now = disk; result = ok tt }

-- the check of the old file, and the creation of the temporary one
unfoldable pub open_temporary : SaveCalls → Disk → Trace
open_temporary s disk = call s.create created same (call s.target same same (begin disk))

unfoldable pub save : SaveCalls → Fields → Disk → Trace
save s config disk =
    let opened = open_temporary s disk in
    unless_raised opened.result opened (clean_up s.close s.unlink (try_save s config opened))
