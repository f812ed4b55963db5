-- ===== src/ExchangeFilters/Cache.antt =====
-- The cache of runtime/core/exchange_filters.py.
use Prim.Native.String.{String}
use pecunator_accu_monetas.Prelude.{◌≡◌, Option, refl, ap, none, some, List}
use pecunator_accu_monetas.Prelude.Dict.{Dict, lookup, lookup-insert_self}
use pecunator_accu_monetas.ExchangeFilters.{
  SymbolFilters, FilterEntry, filters_from, cached_or, ensure_loaded,
}

lookup-cached_or :
    (o : Option SymbolFilters) (key : String) (new : SymbolFilters) (cache : Dict SymbolFilters)
    → lookup key cache ≡ o
    → let (cache', f) = cached_or o key new cache in lookup key cache' ≡ some f
unfolding cached_or
lookup-cached_or (some f) key new cache h = h
lookup-cached_or none key new cache h = lookup-insert_self key new cache

-- After a load the cache holds what the load returned, and a further load of the same symbol returns
-- it and leaves the cache, whatever the client answers then.
pub ensure_loaded_stays :
    (key : String) (info later : Option (List FilterEntry)) (cache : Dict SymbolFilters)
    → let (cache', f) = ensure_loaded key info cache in
      (lookup key cache' ≡ some f) × (ensure_loaded key later cache' ≡ (cache', f))
unfolding ensure_loaded cached_or
ensure_loaded_stays key info later cache =
    let held = lookup-cached_or (lookup key cache) key (filters_from info) cache refl in
    let cache' = (ensure_loaded key info cache).0 in
    (held, ap (λ o. cached_or o key (filters_from later) cache') held)
