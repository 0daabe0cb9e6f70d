-- ===== src/Desktop/Store/Laws.antt =====
-- The settings file: what `set` stores is read after a restart, and a failed write loses nothing old.
use stock_dashboard.Prelude.{String, ◌≡◌, refl, ◌≢◌, Option, none, some, arith, Object, spread}
use stock_dashboard.Desktop.Store
use stock_dashboard.Desktop.Store.{
  Disk, JsonStore, Fault, no_folder, partial_write, no_rename, none_at_all,
}

module _ {Raw V : Type 0} (parse : Raw → Option (Object V)) (stringify : Object V → Raw) where
  -- Every key of the patch is read back from memory, every other key is untouched, whether or not
  -- the file could be written.
  pub get-set :
      (fault : Fault Raw) (s : JsonStore Raw V) (patch : Object V) (key : String)
      → Store.get parse stringify (Store.set parse stringify fault s patch) key
        ≡ elim (patch key) [ none ↦ Store.get parse stringify s key | some v ↦ some v ]
  unfolding Store.get Store.set
  get-set fault s patch key = refl

  -- A restart after a write that succeeded reads the same value at every key.
  pub get-create-set :
      ((d : Object V) → parse (stringify d) ≡ some d)
      → (s : JsonStore Raw V) (patch : Object V) (key : String)
      → (s.contents key ≡ none → s.defaults key ≡ none)
      → Store.get parse stringify
          (Store.create parse stringify s.defaults
            (Store.set parse stringify none_at_all s patch).disk)
          key
        ≡ Store.get parse stringify (Store.set parse stringify none_at_all s patch) key
  unfolding Store.get Store.set Store.create
  get-create-set faithful s patch key covered =
      rw (faithful (spread s.contents patch)) (ground arith)

  -- A restart after a write that failed, at whatever step, reads what a restart before it read.
  pub create-set_failed :
      (fault : Fault Raw) (s : JsonStore Raw V) (patch : Object V) (key : String)
      → fault ≢ none_at_all
      → Store.get parse stringify
          (Store.create parse stringify s.defaults (Store.set parse stringify fault s patch).disk)
          key
        ≡ Store.get parse stringify (Store.create parse stringify s.defaults s.disk) key
  unfolding Store.get Store.set Store.create
  create-set_failed no_folder s patch key h = refl
  create-set_failed (partial_write part) s patch key h = refl
  create-set_failed no_rename s patch key h = refl
  create-set_failed none_at_all s patch key h = absurd (h refl)
