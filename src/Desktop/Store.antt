-- ===== src/Desktop/Store.antt =====
-- desktop/src/alerts/store.js: the JSON settings file, written to a temporary file and renamed.
-- `JSON.parse`, `JSON.stringify` and the file system's failures are parameters.
pub mod Laws
use stock_dashboard.Prelude.{String, Option, none, some, Object, no_keys, spread}

-- The two files of the user-data folder: the settings, and the temporary one beside them.
pub record Disk (Raw : Type 0) : Type 0 where
  pub file : Option Raw
  pub tmp : Option Raw

pub record JsonStore (Raw V : Type 0) : Type 0 where
  pub defaults : Object V
  pub contents : Object V
  pub disk : Disk Raw

-- Where `set` throws: in `mkdirSync`, in `writeFileSync`, which may leave a part of the text
-- behind, in `renameSync`, or nowhere.
pub data Fault (Raw : Type 0) : Type 0 where
  no_folder : Fault Raw
  partial_write : Option Raw → Fault Raw
  no_rename : Fault Raw
  none_at_all : Fault Raw

module _ {Raw V : Type 0} (parse : Raw → Option (Object V)) (stringify : Object V → Raw) where
  -- `{ ...defaults, ...JSON.parse(raw) }`, and the defaults where the file is missing or corrupt.
  unfoldable pub read_contents : Object V → Option Raw → Object V
  read_contents defaults none = defaults
  read_contents defaults (some raw) = elim (parse raw) [
    | none ↦ defaults
    | some d ↦ spread defaults d
  ]

  unfoldable pub load : JsonStore Raw V → JsonStore Raw V
  unfolding read_contents
  load s = record s { contents = read_contents s.defaults s.disk.file }

  -- The constructor.
  unfoldable pub create : Object V → Disk Raw → JsonStore Raw V
  unfolding load
  create defaults disk =
      load (record { defaults = defaults; contents = spread no_keys defaults; disk = disk })

  unfoldable pub get : JsonStore Raw V → String → Option V
  get s key = s.contents key

  unfoldable pub write : Fault Raw → Object V → Disk Raw → Disk Raw
  write no_folder d disk = disk
  write (partial_write part) d disk = record disk { tmp = part }
  write no_rename d disk = record disk { tmp = some (stringify d) }
  write none_at_all d disk = record { file = some (stringify d); tmp = none }

  -- `set` catches what the file system throws.
  unfoldable pub set : Fault Raw → JsonStore Raw V → Object V → JsonStore Raw V
  unfolding write
  set fault s patch =
      let d = spread s.contents patch in record s { contents = d; disk = write fault d s.disk }
