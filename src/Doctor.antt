-- ===== src/Doctor.antt =====
-- board-support/e87n/doctor.py: bounded observations of the running system, each with a status, and
-- the report over all of them.
pub mod Shlex
pub mod Patterns
pub mod Reader
pub mod Identity
pub mod Storage
pub mod Devices
pub mod Kernel
pub mod Report
use edgepi_e87n.Base.{ℕ, Bool, Option, List, Bytes}

pub data Status : Type 0 where
  good unknown warning error : Status

-- _check: a status and the details of the check.
pub record Check (D : Type 0) : Type 0 where
  pub status : Status
  pub details : D

-- What lstat tells of a name.
pub data Node : Type 0 where
  directory regular missing other : Node
  link : Bytes → Node

-- The system below the root: a name is the list of its components. `opened` is what fstat tells of the
-- open file, `chunks` what its reads give, the last one in front of the end of the file, and `listing`
-- what scandir gives. `gunzip` decompresses at most so many bytes.
pub record System : Type 0 where
  pub has_root : Bool
  pub root_parts : List Bytes
  pub node : List Bytes → Node
  pub opened : List Bytes → Node
  pub chunks : List Bytes → Option (List Bytes)
  pub listing : List Bytes → Option (List Bytes)
  pub gunzip : ℕ → Bytes → Option Bytes
