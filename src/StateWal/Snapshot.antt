-- ===== src/StateWal/Snapshot.antt =====
-- `persist`, `hydrate` and `last_snapshot_age_seconds` of runtime/core/state_wal.py. The values, the texts
-- and the JSON functions are arguments; a state is the dict of its attributes, which can all be set. The
-- times are whole seconds; a text of a time that cannot be read is not modelled.
use Prim.Native.String.{String}
use pecunator_accu_monetas.Prelude.{
  ℕ, ◌-◌, Bool, true, false, Option, none, some, List, [], ◌∷◌, if◌then◌else◌,
}
use pecunator_accu_monetas.Prelude.Dict.{Dict, lookup, insert}

abbrev pub persisted_fields : List String
persisted_fields =
    "selected_symbol" ∷ "balances" ∷ "balances_total_assets_in_response" ∷ "open_orders"
    ∷ "my_trades" ∷ "account_summary" ∷ "account_equity" ∷ "last_error" ∷ "connected"
    ∷ "api_weight_used_1m" ∷ "binance_server_time_ms" ∷ "binance_local_time_ms_at_sync"
    ∷ "binance_offset_ms" ∷ "binance_time_synced_at_utc" ∷ []

-- The one row of `state_snapshot`.
pub record Row (Blob : Type 0) : Type 0 where
  pub payload : Blob
  pub updated_at : ℕ

-- The database file: missing, or there with its row.
pub data Wal (Blob : Type 0) : Type 0 where
  no_file : Wal Blob
  file : Option (Row Blob) → Wal Blob

-- `_ensure_schema`
unfoldable pub ensure_schema : {Blob : Type 0} → Wal Blob → Wal Blob
ensure_schema Wal.no_file = Wal.file none
ensure_schema (Wal.file row) = Wal.file row

module _ {V : Type 0} where
  -- `getattr(state, name, None)`, with an iterable that is no text, list or dict made a list.
  unfoldable pub read : (V → V) → V → String → Dict V → V
  read to_list null name s = elim (lookup name s) [ none ↦ null | some v ↦ to_list v ]

  -- The payload of the fields.
  unfoldable pub payload_of : (V → V) → V → List String → Dict V → Dict V
  payload_of to_list null [] s = []
  payload_of to_list null (f ∷ fs) s = (f, read to_list null f s) ∷ payload_of to_list null fs s

  -- `persist`; a database that fails keeps the snapshot it has.
  unfoldable pub persist :
      {Blob : Type 0} → (V → V) → V → (Dict V → Blob) → Bool → ℕ → Dict V → Wal Blob → Wal Blob
  persist to_list null dumps db_ok now s wal =
      if db_ok
      then Wal.file (
          some (record {
            payload = dumps (payload_of to_list null persisted_fields s);
            updated_at = now;
          }))
      else ensure_schema wal

  -- `setattr` of a field that the payload has.
  unfoldable pub restore_one : String → Option V → Dict V → Dict V
  restore_one f none s = s
  restore_one f (some v) s = insert f v s

  -- The loop over the fields.
  unfoldable pub restore : List String → Dict V → Dict V → Dict V
  restore [] payload s = s
  restore (f ∷ fs) payload s = restore fs payload (restore_one f (lookup f payload) s)

  -- `hydrate`; `loads` is `none` where it raises.
  unfoldable pub hydrate :
      {Blob : Type 0} → (Blob → Option (Dict V)) → Dict V → Wal Blob → Dict V × Bool
  hydrate loads s Wal.no_file = (s, false)
  hydrate loads s (Wal.file none) = (s, false)
  hydrate loads s (Wal.file (some row)) = elim (loads row.payload) [
    | none ↦ (s, false)
    | some payload ↦ (restore persisted_fields payload s, true)
  ]

-- `last_snapshot_age_seconds`
unfoldable pub last_snapshot_age_seconds : {Blob : Type 0} → ℕ → Wal Blob → Option ℕ
last_snapshot_age_seconds now Wal.no_file = none
last_snapshot_age_seconds now (Wal.file none) = none
last_snapshot_age_seconds now (Wal.file (some row)) = some (now - row.updated_at)
