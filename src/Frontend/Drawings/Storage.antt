-- ===== src/Frontend/Drawings/Storage.antt =====
-- frontend/src/lib/drawings/storage.js: drawings are written to localStorage first and then to the
-- server, and a load reconciles the two copies. The drawings of one ticker; times are what
-- `Date.parse` gives, and none where it gives no number.
pub mod Laws
use stock_dashboard.Prelude.{
  ℕ, Bool, true, false, not, Option, none, some, List, [], ltb, if◌then◌else◌,
}

-- The local copy.
pub record Local (S : Type 0) : Type 0 where
  pub shapes : List S
  pub updated_at : Option ℕ
  pub dirty : Bool

pub record Remote (S : Type 0) : Type 0 where
  pub shapes : List S
  pub updated_at : Option ℕ

-- Both copies.
pub record World (S : Type 0) : Type 0 where
  pub local : Option (Local S)
  pub remote : Remote S

-- What the environment does during one call: whether GET and PUT succeed, whether localStorage
-- takes a write, the local clock, and the time that the server stamps on a save.
pub record Conditions : Type 0 where
  pub can_get : Bool
  pub can_save : Bool
  pub can_store : Bool
  pub now : ℕ
  pub stamp : Option ℕ

pub record Loaded (S : Type 0) : Type 0 where
  pub shapes : List S
  pub synced : Bool

-- `updatedAt || new Date().toISOString()`
abbrev pub or_now : Option ℕ → ℕ → Option ℕ
or_now none now = some now
or_now (some t) now = some t

-- `Date.parse(…) || 0`
abbrev pub at : Option ℕ → ℕ
at none = 0
at (some t) = t

abbrev pub offline : {S : Type 0} → Option (Local S) → Loaded S
offline none = record { shapes = []; synced = false }
offline (some local) = record { shapes = local.shapes; synced = false }

module _ {S : Type 0} (c : Conditions) where
  unfoldable pub write_local : List S → Bool → Option ℕ → World S → World S
  write_local shapes dirty updated_at w = if not c.can_store then w else record w {
    local = some (record { shapes = shapes; updated_at = or_now updated_at c.now; dirty = dirty });
  }

  -- The server keeps the drawings that it is sent, with a stamp of its own.
  unfoldable pub push : List S → World S → World S × Bool
  unfolding write_local
  push shapes w =
      let saved = record w { remote = record { shapes = shapes; updated_at = c.stamp } } in
      if c.can_save
      then (write_local shapes false c.stamp saved, true)
      else (write_local shapes true none w, false)

  unfoldable pub persist : List S → World S → World S × Bool
  unfolding push
  persist shapes w = push shapes (write_local shapes true none w)

  abbrev pub push_local : Local S → World S → World S × Loaded S
  push_local local w =
      let (w', ok) = push local.shapes w in (w', record { shapes = local.shapes; synced = ok })

  abbrev pub reconcile : Option (Local S) → World S → World S × Loaded S
  reconcile none w = (w, record { shapes = w.remote.shapes; synced = true })
  reconcile (some local) w =
      if local.dirty
      then push_local local w
      else if ltb (at w.remote.updated_at) (at local.updated_at)
      then push_local local w
      else (
        write_local w.remote.shapes false w.remote.updated_at w,
        record { shapes = w.remote.shapes; synced = true },
      )

  unfoldable pub load : World S → World S × Loaded S
  unfolding push
  load w = if not c.can_get then (w, offline w.local) else reconcile w.local w
