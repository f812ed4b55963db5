-- ===== src/StateWal/RoundTrip.antt =====
-- A snapshot of runtime/core/state_wal.py that is written and read back.
use Prim.Native.String.{String}
use pecunator_accu_monetas.Prelude.{
  ℕ, ◌≡◌, refl, ap, Bool, true, false, ◌||◌, Option, none, some, List, [], ◌∷◌, arith,
  if◌then◌else◌, Bool-cases, inl, inr,
}
use pecunator_accu_monetas.Prelude.Dict.{Dict, same, same→eq, lookup, lookup-insert}
use pecunator_accu_monetas.StateWal.Snapshot.{
  persisted_fields, Wal, read, payload_of, persist, restore, restore_one, hydrate,
}

abbrev pub is_listed : String → List String → Bool
is_listed k [] = false
is_listed k (f ∷ fs) = same f k || is_listed k fs

module _ {V : Type 0} where
  -- What a value becomes in JSON and back.
  abbrev pub stored_as : (V → V) → Dict V → Dict V
  stored_as stored [] = []
  stored_as stored ((k, v) ∷ d) = (k, stored v) ∷ stored_as stored d

  lookup-payload_of :
      (stored to_list : V → V) (null : V) (fs : List String) (s : Dict V) (k : String)
      → lookup k (stored_as stored (payload_of to_list null fs s))
        ≡ (if is_listed k fs then some (stored (read to_list null k s)) else none)
  unfolding lookup payload_of
  lookup-payload_of stored to_list null [] s k = refl
  lookup-payload_of stored to_list null (f ∷ fs) s k = elim (Bool-cases (same f k)) [
    | inl e ↦
        let h : f ≡ k = same→eq f k e in rw (e) (ap (λ j. some (stored (read to_list null j s))) h)
    | inr e ↦ rw (e) (lookup-payload_of stored to_list null fs s k)
  ]

  -- The first of two values that is there.
  abbrev pub either : Option V → Option V → Option V
  either none o = o
  either (some v) o = some v

  lookup-restore_one :
      (f k : String) (o : Option V) (s : Dict V)
      → lookup k (restore_one f o s) ≡ (if same f k then either o (lookup k s) else lookup k s)
  unfolding restore_one
  lookup-restore_one f k none s = ground arith
  lookup-restore_one f k (some v) s = lookup-insert f k v s

  either_twice : (o p : Option V) → either o (either o p) ≡ either o p
  either_twice none p = refl
  either_twice (some v) p = refl

  lookup-restore :
      (fs : List String) (payload s : Dict V) (k : String)
      → lookup k (restore fs payload s)
        ≡ (if is_listed k fs then either (lookup k payload) (lookup k s) else lookup k s)
  unfolding restore
  lookup-restore [] payload s k = refl
  lookup-restore (f ∷ fs) payload s k =
      let s1 = restore_one f (lookup f payload) s in
      let rest = lookup-restore fs payload s1 k in
      let one = lookup-restore_one f k (lookup f payload) s in
      let same_key : same f k ≡ true → lookup f payload ≡ lookup k payload =
        λ e. ap (λ j. lookup j payload) (same→eq f k e) in
      let twice = either_twice (lookup k payload) (lookup k s) in ground arith

  lookup-restore-payload_of :
      (stored to_list : V → V) (null : V) (fs : List String) (s s' : Dict V) (k : String)
      → lookup k (restore fs (stored_as stored (payload_of to_list null fs s)) s')
        ≡ (if is_listed k fs then some (stored (read to_list null k s)) else lookup k s')
  lookup-restore-payload_of stored to_list null fs s s' k =
      let back = lookup-restore fs (stored_as stored (payload_of to_list null fs s)) s' k in
      let kept = lookup-payload_of stored to_list null fs s k in ground arith

  -- Over a JSON that reads back what it wrote, up to what becomes of each value: a state that is restored
  -- after a snapshot has the value of every persisted field of the state that was saved, as JSON keeps it,
  -- and its own value of every other attribute; and the snapshot is found.
  pub hydrate-persist :
      {Blob : Type 0} (to_list stored : V → V) (null : V) (dumps : Dict V → Blob)
      (loads : Blob → Option (Dict V))
      → ((p : Dict V) → loads (dumps p) ≡ some (stored_as stored p))
      → (now : ℕ) (s s' : Dict V) (wal : Wal Blob) (k : String)
      → let (back, found) = hydrate loads s' (persist to_list null dumps true now s wal) in
        (found ≡ true)
        × (lookup k back ≡ (
            if is_listed k persisted_fields
            then some (stored (read to_list null k s))
            else lookup k s'))
  unfolding hydrate persist
  hydrate-persist to_list stored null dumps loads faithful now s s' wal k =
      rw (faithful (payload_of to_list null persisted_fields s))
        (refl, lookup-restore-payload_of stored to_list null persisted_fields s s' k)
