-- ===== src/Frontend/Drawings/Storage/Laws.antt =====
-- No drawing is lost: what a load returns, what it leaves in both copies, and how a failed save is
-- made good.
use stock_dashboard.Prelude.{
  ◌≡◌, refl, Bool, true, false, not, Option, none, some, List, arith, ltb, if◌then◌else◌,
}
use stock_dashboard.Frontend.Drawings.Storage.{
  Local, World, Conditions, at, push, persist, offline, reconcile, load,
}

module _ {S : Type 0} where
  -- The local copy, if there is one, holds these drawings and needs no push.
  abbrev pub IsClean : List S → Option (Local S) → Type 0
  IsClean shapes none = Unit {0}
  IsClean shapes (some local) = (local.shapes ≡ shapes) × (local.dirty ≡ false)

  reconcile-synced :
      (c : Conditions) (o : Option (Local S)) (w : World S)
      → c.can_store ≡ true
      → w.local ≡ o
      → (reconcile c o w).1.synced ≡ true
      → ((reconcile c o w).0.remote.shapes ≡ (reconcile c o w).1.shapes)
        × IsClean (reconcile c o w).1.shapes (reconcile c o w).0.local
  unfolding push
  reconcile-synced c none w st e h = (refl, rw e tt)
  reconcile-synced c (some local) w st e h = ground arith

  offline-synced : (o : Option (Local S)) → (offline o).synced ≡ false
  offline-synced none = refl
  offline-synced (some local) = refl

  -- Where the local storage takes writes, a load that reports the copies as synced leaves the
  -- server with exactly the drawings that it returns, and the local copy, where there is one, with
  -- the same and nothing to push.
  pub load-synced :
      (c : Conditions) (w : World S)
      → c.can_store ≡ true
      → (load c w).1.synced ≡ true
      → ((load c w).0.remote.shapes ≡ (load c w).1.shapes)
        × IsClean (load c w).1.shapes (load c w).0.local
  unfolding load
  load-synced c w st h = go c.can_get refl h
    where
      go :
          (b : Bool)
          → c.can_get ≡ b
          → (if not b then (w, offline w.local) else reconcile c w.local w).1.synced ≡ true
          → ((if not b then (w, offline w.local) else reconcile c w.local w).0.remote.shapes
              ≡ (if not b then (w, offline w.local) else reconcile c w.local w).1.shapes)
            × IsClean
                (if not b then (w, offline w.local) else reconcile c w.local w).1.shapes
                (if not b then (w, offline w.local) else reconcile c w.local w).0.local
      go true e h = reconcile-synced c w.local w st refl h
      go false e h = cc (offline-synced w.local)

  -- The local copy holds these drawings.
  abbrev pub Holds : List S → Option (Local S) → Type 0
  Holds shapes none = ⊥
  Holds shapes (some local) = local.shapes ≡ shapes

  -- Drawings that could not be pushed are what a load returns and keeps, whatever fails and
  -- whatever the server holds.
  pub load-dirty :
      (c : Conditions) (w : World S) (local : Local S)
      → w.local ≡ some local
      → local.dirty ≡ true
      → ((load c w).1.shapes ≡ local.shapes) × Holds local.shapes (load c w).0.local
  unfolding load
  load-dirty c w local e d = rw (e, load) (ground arith)

  -- Of a clean local copy and the server's, the newer one is returned; on a tie it is the server's.
  pub load-newest :
      (c : Conditions) (w : World S) (local : Local S)
      → c.can_get ≡ true
      → w.local ≡ some local
      → local.dirty ≡ false
      → (load c w).1.shapes ≡ (
          if ltb (at w.remote.updated_at) (at local.updated_at)
          then local.shapes
          else w.remote.shapes)
  unfolding load
  load-newest c w local g e d = ground arith

  -- A save whose request failed, where the local storage takes writes, is made good by the next
  -- load and push that reach the server: the load returns the saved drawings, pushes them, and
  -- reports the copies as synced.
  pub load-persist_failed :
      (c c' : Conditions) (shapes : List S) (w : World S)
      → c.can_store ≡ true
      → c.can_save ≡ false
      → c'.can_get ≡ true
      → c'.can_save ≡ true
      → ((persist c shapes w).1 ≡ false)
        × ((load c' (persist c shapes w).0).1.shapes ≡ shapes)
        × ((load c' (persist c shapes w).0).1.synced ≡ true)
        × ((load c' (persist c shapes w).0).0.remote.shapes ≡ shapes)
  unfolding load persist
  load-persist_failed c c' shapes w st sv g sv' = ground arith
