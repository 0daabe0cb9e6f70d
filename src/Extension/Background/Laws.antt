-- ===== src/Extension/Background/Laws.antt =====
-- The background worker: caches, the degraded symbol set, and the silence after a new address.
use stock_dashboard.Prelude.{
  ℕ, suc, ◌+◌, ◌≤◌, ◌≡◌, refl, ◌∙◌, Bool, true, false, none, some, List, [], ◌∷◌, ◌++◌, arith,
  if◌then◌else◌,
}
use stock_dashboard.Extension.Api.{Reply, ok, err, ApiError}
use stock_dashboard.Extension.Cache.{read_cache, write_cache}
use stock_dashboard.Extension.Cache.Laws.{read_cache-write_cache}
use stock_dashboard.Extension.Background.{
  Page, Score, Local, Settings, Effect, notification, summary, set_alarm, reflect_error,
  boom_scores, poll, on_changed, forget, scores_ttl_ms, ensure_alarm, received,
}

abbrev pub is_notice : Effect → Bool
is_notice (notification a) = true
is_notice (summary n) = true
is_notice _ = false

abbrev pub count_notices : List Effect → ℕ
count_notices [] = 0
count_notices (e ∷ es) = if is_notice e then suc (count_notices es) else count_notices es

count_notices-append :
    (xs ys : List Effect) → count_notices (xs ++ ys) ≡ count_notices xs + count_notices ys
count_notices-append [] ys = omega arith
count_notices-append (x ∷ xs) ys = ground (arith, count_notices-append xs ys)

failure-silent :
    (e : ApiError) (s : Local)
    → (count_notices (reflect_error e s).1 ≡ 0)
      × ((reflect_error e s).0.seeded ≡ s.seeded)
      × ((reflect_error e s).0.seen_keys ≡ s.seen_keys)
      × ((reflect_error e s).0.boom ≡ s.boom)
      × ((reflect_error e s).0.symbols ≡ s.symbols)
      × ((reflect_error e s).0.cached_alerts ≡ s.cached_alerts)
unfolding reflect_error
failure-silent e s = ground arith

-- A poll that fails shows an error badge and notifies of nothing, and it leaves the seen keys, the
-- caches and the last page as they are.
pub poll-err :
    (now : ℕ) (settings : Settings) (e : ApiError) (s : Local)
    → (count_notices (poll now settings (err e) s).1 ≡ 0)
      × ((poll now settings (err e) s).0.seeded ≡ s.seeded)
      × ((poll now settings (err e) s).0.seen_keys ≡ s.seen_keys)
      × ((poll now settings (err e) s).0.boom ≡ s.boom)
      × ((poll now settings (err e) s).0.symbols ≡ s.symbols)
      × ((poll now settings (err e) s).0.cached_alerts ≡ s.cached_alerts)
unfolding poll
poll-err now settings e s = failure-silent e s

poll-unseeded :
    (now : ℕ) (settings : Settings) (reply : Reply Page) (s : Local)
    → s.seeded ≡ false
    → count_notices (poll now settings reply s).1 ≡ 0
unfolding poll
poll-unseeded now settings (err e) s h = (failure-silent e s).0
poll-unseeded now settings (ok page) s h = unfold received in ground arith

poll-caches :
    (now : ℕ) (settings : Settings) (reply : Reply Page) (s : Local)
    → ((poll now settings reply s).0.boom ≡ s.boom)
      × ((poll now settings reply s).0.symbols ≡ s.symbols)
unfolding poll received
poll-caches now settings (err e) s = ground (arith, failure-silent e s)
poll-caches now settings (ok page) s = ground arith

-- Whatever the new dashboard answers, a change of its address notifies of nothing, so that its
-- backlog is taken in silently; the scores and symbols of the old dashboard are gone.
pub on_changed-silent :
    (minutes_changed : Bool) (now : ℕ) (settings : Settings) (reply : Reply Page) (s : Local)
    → (count_notices (on_changed true minutes_changed now settings reply s).1 ≡ 0)
      × ((on_changed true minutes_changed now settings reply s).0.boom ≡ none)
      × ((on_changed true minutes_changed now settings reply s).0.symbols ≡ none)
unfolding on_changed ensure_alarm
on_changed-silent minutes_changed now settings reply s =
    let s' = forget s in
    let clean : (s'.seeded ≡ false) × (s'.boom ≡ none) × (s'.symbols ≡ none) =
      unfold forget in (refl, refl, refl) in
    let polled = poll now settings reply s' in
    ground (
      arith,
      poll-unseeded now settings reply s' clean.0,
      poll-caches now settings reply s',
      count_notices-append polled.1 (if minutes_changed then ensure_alarm settings else []),
    )

boom_scores_fetched :
    (fetched : ℕ) (rows : List Score) (s : Local)
    → read_cache fetched scores_ttl_ms s.boom ≡ none
    → (boom_scores fetched (ok rows) s).0 ≡ record s { boom = write_cache fetched rows }
unfolding boom_scores
boom_scores_fetched fetched rows s stale = rw (stale, boom_scores) refl

boom_scores_hit :
    (now : ℕ) (later : Reply (List Score)) (rows : List Score) (s : Local)
    → read_cache now scores_ttl_ms s.boom ≡ some rows
    → (boom_scores now later s).1 ≡ ok rows
unfolding boom_scores
boom_scores_hit now later rows s hit = rw (hit, boom_scores) refl

-- A score table that was fetched, for want of a cached one, is served from the cache for its time
-- to live, with no regard to what the server would answer.
pub boom_scores_cached :
    (fetched now : ℕ) (rows : List Score) (later : Reply (List Score)) (s : Local)
    → read_cache fetched scores_ttl_ms s.boom ≡ none
    → now ≤ fetched + scores_ttl_ms
    → (boom_scores now later (boom_scores fetched (ok rows) s).0).1 ≡ ok rows
boom_scores_cached fetched now rows later s stale fresh =
    rw (boom_scores_fetched fetched rows s stale) (
      boom_scores_hit now later rows (record s { boom = write_cache fetched rows })
        (read_cache-write_cache fetched now scores_ttl_ms rows ∙ ground arith))

-- The alarm's period is between one and fifteen minutes, whatever was stored.
pub ensure_alarm_bounds :
    (settings : Settings)
    → (minutes : ℕ) × (ensure_alarm settings ≡ set_alarm minutes ∷ [])
      × (1 ≤ minutes)
      × (minutes ≤ 15)
unfolding ensure_alarm
ensure_alarm_bounds settings = (_, refl, ground arith, ground arith)
