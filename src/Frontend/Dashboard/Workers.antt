-- ===== src/Frontend/Dashboard/Workers.antt =====
-- The four workers of `refreshOne`, which take sources from one queue and call the server for each.
-- JavaScript runs one of them at a time, from one `await` to the next.
pub mod Laws
use stock_dashboard.Prelude.{
  ℕ, zero, suc, String, Bool, true, false, not, Option, none, some, List, [], ◌∷◌, ◌++◌, get_elem?,
  any,
}

-- A worker is about to look at the queue, waits for its call, or has returned.
pub data Worker : Type 0 where
  looking : Worker
  calling : String → Worker
  finished : Worker

pub record Pool : Type 0 where
  pub queue : List String
  pub workers : List Worker
  -- the sources that the server was asked to refresh, in order
  pub called : List String

abbrev pub start : List String → Pool
start wanted = record {
  queue = wanted;
  workers = looking ∷ looking ∷ looking ∷ looking ∷ [];
  called = [];
}

abbrev pub set_worker : ℕ → Worker → List Worker → List Worker
set_worker i x [] = []
set_worker zero x (w ∷ ws) = x ∷ ws
set_worker (suc i) x (w ∷ ws) = w ∷ set_worker i x ws

-- `while (queue.length) { const s = queue.shift(); try { await … } catch {} }`: a call that fails
-- is passed over.
abbrev pub look : ℕ → List String → Pool → Pool
look i [] p = record p { workers = set_worker i finished p.workers }
look i (s ∷ queue) p = record p {
  queue = queue;
  workers = set_worker i (calling s) p.workers;
  called = p.called ++ s ∷ [];
}

abbrev pub advance_as : ℕ → Option Worker → Pool → Pool
advance_as i (some looking) p = look i p.queue p
advance_as i (some (calling s)) p = record p { workers = set_worker i looking p.workers }
advance_as i (some finished) p = p
advance_as i none p = p

-- The worker with a number runs up to its next `await`.
unfoldable pub advance : ℕ → Pool → Pool
advance i p = advance_as i (get_elem? p.workers i) p

-- Any schedule of the workers.
unfoldable pub run : List ℕ → Pool → Pool
unfolding advance
run [] p = p
run (i ∷ is) p = run is (advance i p)

abbrev pub is_finished : Worker → Bool
is_finished finished = true
is_finished _ = false

-- `Promise.all` resolves.
unfoldable pub is_done : Pool → Bool
is_done p = not (any (λ w. not (is_finished w)) p.workers)
