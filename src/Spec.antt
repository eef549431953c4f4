-- ===== src/Spec.antt =====
-- The types of github.com/baetyl/baetyl-go/v2/spec/v1 that the services pass around, with the
-- fields that the modelled code reads or writes. A nil pointer is `none`.
pub mod Desire
use baetyl_cloud.Common.{ℕ, String, Bool, Option, List}
use baetyl_cloud.Common.Dict.{Dict}

pub record ObjectReference : Type 0 where
  pub name : String
  pub version : String

pub record Volume : Type 0 where
  pub name : String
  pub config : Option ObjectReference
  pub secret : Option ObjectReference

pub record Service : Type 0 where
  pub name : String
  pub volume_mounts : List String

pub data CronStatus : Type 0 where
  cron_not_set cron_wait cron_finished : CronStatus

pub record Application : Type 0 where
  pub name : String
  pub namespace : String
  pub version : String
  pub selector : String
  pub system : Bool
  pub cron_status : CronStatus
  pub cron_time : ℕ
  pub services : List Service
  pub volumes : List Volume

pub record Configuration : Type 0 where
  pub name : String
  pub namespace : String
  pub version : String
  pub labels : Dict String
  pub entries : Dict String
  pub description : String
  pub update_timestamp : ℕ
  pub creation_timestamp : ℕ
  pub system : Bool

pub record Secret : Type 0 where
  pub name : String
  pub namespace : String
  pub version : String

pub record AppInfo : Type 0 where
  pub name : String
  pub version : String

-- What stands in a desire or a report under a key: lists of applications, node properties (a
-- value that is nil is `none`), a time, a string, or anything else by its text.
pub data Value : Type 0 where
  apps : List AppInfo → Value
  props : Dict (Option String) → Value
  times : Dict ℕ → Value
  time : ℕ → Value
  str : String → Value
  other : String → Value

pub record Node : Type 0 where
  pub name : String
  pub namespace : String
  pub version : String
  pub labels : Dict String
  pub cluster : Bool
  pub attributes : Option (Dict Value)
  pub report : Option (Dict Value)
  pub desire : Option (Dict Value)
  pub creation_timestamp : ℕ
