-- ===== src/Triggers.antt =====
-- triggerfunc/trigger.go: the report cache, kept up to date by the triggers of the shadow store.
-- Report times are gathered in a map of the process and written to the cache once in a second.
pub mod Flushing
use Prim.Native.String.{compare}
use text.Mathlib.Text.{is_lt}
use baetyl_cloud.Common.{
  ℕ, String, Bool, true, false, Option, none, some, List, [], ◌∷◌, ◌==◌, if◌then◌else◌, ltb,
}
use baetyl_cloud.Common.Action.{
  Error, Result, ok, err, panicked, Action, pure, lift, ◌>>=◌, ◌>>◌, attempt,
}
use baetyl_cloud.Common.Dict.{Dict, lookup, insert, erase}
use baetyl_cloud.Plugin.{Shadow}
use baetyl_cloud.Service.Listing.{DataCache, Formats, report_time_key, report_key}

-- reportSaveStruct
pub record SavedTime : Type 0 where
  pub value : String
  pub time : ℕ

-- reportSaveMap, and the rest of the world.
pub record Waiting (C : Type 0) : Type 0 where
  pub saved : Dict SavedTime
  pub cache : C

-- The timer of one second, the clock, and the text of the time so many minutes ago.
pub record Ticks (C : Type 0) : Type 0 where
  pub has_fired : Action C Bool
  pub reset : Action C (Unit {0})
  pub now : Action C ℕ
  pub minutes_ago : ℕ → Action C String

abbrev pub update_lock : String
update_lock = "cache-report-time-lock"

-- The Range of saveCache: times before the check move into the map and leave the waiting ones.
unfoldable pub flush : ℕ → Dict SavedTime → Dict String → Dict SavedTime × Dict String
flush check [] times = ([], times)
flush check ((k, v) ∷ saved) times =
    let older : Bool = ltb v.time check in
    let rest = flush check saved (if older then insert k v.value times else times) in
    (if older then rest.0 else (k, v) ∷ rest.0, rest.1)

module _ {C : Type 0} (cache : DataCache C) (formats : Formats) (ticks : Ticks C) where
  abbrev on_cache : {A : Type 0} → Action C A → Action (Waiting C) A
  on_cache m s = let r = m s.cache in (r.0, record s { cache = r.1 })

  -- An error that is logged only.
  abbrev logged : Action (Waiting C) (Unit {0}) → Action (Waiting C) (Unit {0})
  logged m = attempt m pure (λ e. pure tt)

  abbrev store_time : String → SavedTime → Action (Waiting C) (Unit {0})
  store_time name v s = (ok tt, record s { saved = insert name v s.saved })

  abbrev decoded : Option String → Result (Dict String)
  decoded none = ok []
  decoded (some text) = formats.decode_times text

  abbrev cached_times : String → Bool → Action (Waiting C) (Dict String)
  cached_times ns false = pure []
  cached_times ns true = do
    text ← on_cache (cache.get_byte (report_time_key ns))
    lift (decoded text)

  abbrev flushed : ℕ → Dict String → Action (Waiting C) (Dict String)
  flushed check times s = let r = flush check s.saved times in (ok r.1, record s { saved = r.0 })

  -- saveCache; its callers see no error. What left the waiting ones is gone where the write fails.
  unfoldable pub save_cache : ℕ → String → Action (Waiting C) (Unit {0})
  save_cache check ns = logged (do
    found ← on_cache (cache.exist (report_time_key ns))
    times ← cached_times ns found
    all ← flushed check times
    text ← lift (formats.encode_times all)
    on_cache (cache.set_byte (report_time_key ns) text))

  abbrev drop_old_lock : Action (Waiting C) (Unit {0})
  drop_old_lock = logged (do
    locked_at ← on_cache (cache.get_string update_lock)
    limit ← on_cache (ticks.minutes_ago 2)
    if is_lt (compare locked_at limit) then on_cache (cache.delete update_lock) else pure tt)

  abbrev save_locked : String → Action (Waiting C) (Unit {0})
  save_locked ns = do
    check ← on_cache ticks.now
    save_cache check ns
    logged (on_cache (cache.delete update_lock))

  abbrev take_lock : String → Action (Waiting C) (Unit {0})
  take_lock ns =
      attempt
        (on_cache (ticks.minutes_ago 0) >>= λ text. on_cache (cache.set_string update_lock text))
        (λ _. save_locked ns) (λ e. pure tt)

  abbrev tick : String → Action (Waiting C) (Unit {0})
  tick ns = do
    attempt (on_cache (cache.exist update_lock))
        (λ locked. if locked then drop_old_lock else take_lock ns) (λ e. pure tt)
    on_cache ticks.reset

  -- ShadowCreateOrUpdateCacheSet
  unfoldable pub shadow_create_or_update_cache_set : Shadow → Action (Waiting C) (Unit {0})
  shadow_create_or_update_cache_set sh = do
    t ← on_cache ticks.now
    store_time sh.name (record { value = formats.format_time sh.time; time = t })
    fired ← on_cache ticks.has_fired
    (if fired then tick sh.namespace else pure tt)
    logged (on_cache (cache.set_byte (report_key sh.namespace sh.name) sh.report_text))

  abbrev forget : String → Action (Waiting C) (Unit {0})
  forget name s = (ok tt, record s { saved = erase name s.saved })

  abbrev drop_times : String → String → Option String → Action (Waiting C) (Unit {0})
  drop_times name ns none = pure tt
  drop_times name ns (some text) = do
    times ← lift (formats.decode_times text)
    left ← lift (formats.encode_times (erase name times))
    forget name
    on_cache (cache.set_byte (report_time_key ns) left)
    on_cache (cache.delete (report_key ns name))

  -- ShadowDeleteCache
  unfoldable pub shadow_delete_cache : String → String → Action (Waiting C) (Unit {0})
  shadow_delete_cache name ns =
      logged (do text ← on_cache (cache.get_byte (report_time_key ns)); drop_times name ns text)
