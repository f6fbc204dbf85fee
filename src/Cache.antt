-- ===== src/Cache.antt =====
-- The offline cache's store (frontend/src/stores/cacheStore.ts, its types in frontend/src/types/index.ts)
-- and how the cache's events and reads land in it (frontend/src/composables/useCache.ts).
pub mod Laws
use phpo.Base.{
  ℕ, Bool, true, false, not, ◌&&◌, Option, none, some, List, [], ◌∷◌, ◌++◌, Text, lit, str_eq,
  filter, or_else, if◌then◌else◌,
}
use phpo.Task.Records.{lookup, insert}

pub record CacheEntry : Type 0 where
  pub kind : Text
  pub version : Text
  pub path : Text
  pub has_image : Bool
  pub has_ext_image : Bool
  pub apk_count : ℕ
  pub pecl_count : ℕ
  pub total_size : ℕ
  pub last_verify : Text
  pub verify_ok : Bool

pub record CacheStats : Type 0 where
  pub total_bytes : ℕ
  pub entry_count : ℕ
  pub image_count : ℕ
  pub ext_count : ℕ
  pub corrupted : ℕ

pub data CacheEventKind : Type 0 where
  hit miss : CacheEventKind

pub record CacheEventMark : Type 0 where
  pub kind : CacheEventKind
  pub source : Option Text
  pub size : Option ℕ
  pub action : Option Text
  pub at : ℕ

pub record CacheStore : Type 0 where
  pub entries : List CacheEntry
  pub stats : CacheStats
  pub loading : Bool
  pub marks : List (Text × CacheEventMark)

abbrev pub empty_stats : CacheStats
empty_stats = record {
  total_bytes = 0;
  entry_count = 0;
  image_count = 0;
  ext_count = 0;
  corrupted = 0;
}

abbrev pub is_entry : Text → Text → CacheEntry → Bool
is_entry kind version e = str_eq e.kind kind && str_eq e.version version

unfoldable pub find_entry : Text → Text → List CacheEntry → Option CacheEntry
find_entry kind version [] = none
find_entry kind version (e ∷ es) =
    if is_entry kind version e then some e else find_entry kind version es

-- Writes at the first index of the entry's kind and version, or pushes.
unfoldable pub put_entry : CacheEntry → List CacheEntry → List CacheEntry
put_entry e [] = e ∷ []
put_entry e (x ∷ xs) = if is_entry e.kind e.version x then e ∷ xs else x ∷ put_entry e xs

unfoldable pub set_entries : List CacheEntry → CacheStore → CacheStore
set_entries list s = record s { entries = list }

unfoldable pub set_stats : CacheStats → CacheStore → CacheStore
set_stats stats s = record s { stats = stats }

unfoldable pub set_entry : CacheEntry → CacheStore → CacheStore
unfolding put_entry
set_entry e s = record s { entries = put_entry e s.entries }

unfoldable pub drop_entry : Text → Text → CacheStore → CacheStore
drop_entry kind version s = record s {
  entries = filter (λ x. not (is_entry kind version x)) s.entries;
}

abbrev pub key_of : Text → Text → Text
key_of kind version = kind ++ (lit "/" ++ version)

unfoldable pub record_mark : Text → Text → CacheEventMark → CacheStore → CacheStore
record_mark kind version mark s = record s { marks = insert (key_of kind version) mark s.marks }

unfoldable pub mark_of : Text → Text → CacheStore → Option CacheEventMark
mark_of kind version s = lookup (key_of kind version) s.marks

unfoldable pub corrupted_count : CacheStore → ℕ
corrupted_count s = s.stats.corrupted

unfoldable pub reset : CacheStore → CacheStore
reset s = record s { entries = []; stats = empty_stats; marks = [] }

-- The events that `subscribeCache` listens to; the last three ask for a quiet pull.
pub data CacheEvent : Type 0 where
  cache_hit : (kind version : Text) (source : Option Text) (size : Option ℕ) → CacheEvent
  cache_miss : (kind version : Text) (action : Option Text) → CacheEvent
  cache_promote cache_corrupted cache_cleanup : CacheEvent

-- `pull` up to its await: whether it goes on.
unfoldable pub begin_pull : CacheStore → CacheStore × Bool
begin_pull s = if s.loading then (s, false) else (record s { loading = true }, true)

-- `pull` after its await: what the two reads return, where nothing has failed; each may be absent.
unfoldable pub end_pull :
    Option (Option (List CacheEntry) × Option CacheStats) → CacheStore → CacheStore × Bool
end_pull none s = (record s { loading = false }, false)
end_pull (some (list, stats)) s = (
  record s { entries = or_else list s.entries; stats = or_else stats s.stats; loading = false },
  true,
)

-- The state after an event at time `now`, and whether a pull has begun.
unfoldable pub on_cache_event : ℕ → CacheEvent → CacheStore → CacheStore × Bool
unfolding record_mark begin_pull
on_cache_event now (cache_hit kind version source size) s = (
  record_mark kind version
      (record { kind = hit; source = source; size = size; action = none; at = now }) s,
  false,
)
on_cache_event now (cache_miss kind version action) s = (
  record_mark kind version
      (record { kind = miss; source = none; size = none; action = action; at = now }) s,
  false,
)
on_cache_event now cache_promote s = begin_pull s
on_cache_event now cache_corrupted s = begin_pull s
on_cache_event now cache_cleanup s = begin_pull s
