-- ===== src/Trend/Staleness.antt =====
-- When runtime/modules/trend_signal.py asks for a new trend.
use Prim.Native.String.{String}
use pecunator_accu_monetas.Prelude.{
  ℕ, ◌+◌, ◌≡◌, refl, ap, sym, ◌∙◌, Bool, true, false, Option, none, some, Option-cases, List, [],
  ◌∷◌, arith, if◌then◌else◌, get_or, ltb, Bool-cases, inl, inr,
}
use pecunator_accu_monetas.Prelude.Frac.{Frac}
use pecunator_accu_monetas.Prelude.Dict.{Dict, same, same→eq, lookup, insert, lookup-insert}
use pecunator_accu_monetas.Trend.Candles.{Kline, HaCandle, compute_heikin_ashi, compute_trend}
use pecunator_accu_monetas.Trend.Service.{
  SymbolState, Service, init, new_state, state_of, get_or_create, with_lock, needs_trend_refresh,
  needs_entry_refresh, store_trend, update_trend, update_entry_gate,
}

-- A call of the service.
pub data Call : Type 0 where
  trend_update : String → List (Option Kline) → ℕ → Call
  entry_update : String → Frac → Frac → ℕ → Call
  trend_question : String → ℕ → Call
  entry_question : String → ℕ → Call

abbrev pub service_of {ℓ} : {A : Type ℓ} → Option (Service × A) → Option Service
service_of none = none
service_of (some (s, a)) = some s

abbrev pub apply : Call → Service → Option Service
apply (Call.trend_update symbol klines now) s = update_trend symbol klines now s
apply (Call.entry_update symbol price opening now) s = update_entry_gate symbol price opening now s
apply (Call.trend_question symbol now) s = service_of (needs_trend_refresh symbol now s)
apply (Call.entry_question symbol now) s = service_of (needs_entry_refresh symbol now s)

-- A new service after calls, the newest first.
abbrev pub run : ℕ → ℕ → List Call → Option Service
run trend_ttl entry_ttl [] = some (init trend_ttl entry_ttl)
run trend_ttl entry_ttl (c ∷ cs) = elim (run trend_ttl entry_ttl cs) [
  | none ↦ none
  | some s ↦ apply c s
]

abbrev pub is_readable : List (Option Kline) → Bool
is_readable klines = elim (compute_heikin_ashi klines) [ none ↦ false | some candles ↦ true ]

-- The update time of a symbol's trend after a call: klines that cannot be read leave it.
abbrev pub after : Call → String → ℕ → ℕ
after (Call.trend_update name klines now) symbol time =
    if same name symbol then (if is_readable klines then now else time) else time
after _ symbol time = time

-- The reading at the last update of a symbol's trend; 0 if there was none.
abbrev pub last_trend : String → List Call → ℕ
last_trend symbol [] = 0
last_trend symbol (c ∷ cs) = after c symbol (last_trend symbol cs)

-- A service whose lock is free, with its lifetime and the update times of the trends.
abbrev IsUpdated : ℕ → (String → ℕ) → Service → Type 0
IsUpdated ttl times s =
    (s.locked ≡ false)
    × (s.trend_ttl ≡ ttl)
    × ((symbol : String) → (state_of symbol s).trend_updated_at ≡ times symbol)

state_of_insert :
    (name symbol : String) (st : SymbolState) (d : Dict SymbolState)
    → get_or (lookup symbol (insert name st d)) new_state
      ≡ (if same name symbol then st else get_or (lookup symbol d) new_state)
state_of_insert name symbol st d =
    ap (λ o. get_or o new_state) (lookup-insert name symbol st d) ∙ ground arith

-- A service with one more state.
IsUpdated-with :
    (ttl : ℕ) (times : String → ℕ) (name : String) (st : SymbolState) (s s' : Service)
    → IsUpdated ttl times s
    → s'.states ≡ insert name st s.states
    → s'.trend_ttl ≡ s.trend_ttl
    → s'.locked ≡ s.locked
    → IsUpdated ttl (λ symbol. if same name symbol then st.trend_updated_at else times symbol) s'
IsUpdated-with ttl times name st s s' (free, size, old) states same_ttl same_lock = (
  same_lock ∙ free,
  same_ttl ∙ size,
  λ symbol.
      let found = state_of_insert name symbol st s.states in
      let before = old symbol in
      ap (λ d. (get_or {V = SymbolState} (lookup symbol d) new_state).trend_updated_at) states
      ∙ ap (λ r. r.trend_updated_at) found
      ∙ ground arith,
)

IsUpdated-again :
    (ttl : ℕ) (times times' : String → ℕ) (s : Service)
    → ((symbol : String) → times symbol ≡ times' symbol)
    → IsUpdated ttl times s
    → IsUpdated ttl times' s
IsUpdated-again ttl times times' s same_times (free, size, old) =
    (free, size, λ symbol. old symbol ∙ same_times symbol)

-- What a call that returns leaves.
abbrev Leaves : ℕ → (String → ℕ) → Option Service → Type 0
Leaves ttl times o = (s : Service) × (o ≡ some s) × IsUpdated ttl times s

kept_time :
    (ttl : ℕ) (times : String → ℕ) (name symbol : String) (s : Service)
    → IsUpdated ttl times s
    → (if same name symbol then (state_of name s).trend_updated_at else times symbol) ≡ times symbol
kept_time ttl times name symbol s (free, size, old) = elim (Bool-cases (same name symbol)) [
  | inl e ↦ rw (e) (old name ∙ ap times (same→eq name symbol e))
  | inr e ↦ rw (e) refl
]

-- A call that writes a state with the update time that the symbol had.
created-Leaves :
    (ttl : ℕ) (times : String → ℕ) (name : String) (st : SymbolState) (s : Service)
    (o : Option Service)
    → o ≡ some (record s { states = insert name st s.states })
    → st.trend_updated_at ≡ (state_of name s).trend_updated_at
    → IsUpdated ttl times s
    → Leaves ttl times o
created-Leaves ttl times name st s o returns kept h =
    let s' : Service = record s { states = insert name st s.states } in
    (
      s',
      returns,
      IsUpdated-again ttl _ times s'
          (λ symbol.
            ap (λ t. if same name symbol then t else times symbol) kept
            ∙ kept_time ttl times name symbol s h)
          (IsUpdated-with ttl times name st s s' h refl refl refl),
    )

same_twice : (b : Bool) (n : ℕ) → n ≡ (if b then n else n)
same_twice true n = refl
same_twice false n = refl

update_unread :
    (name : String) (klines : List (Option Kline)) (now : ℕ) (s : Service)
    → compute_heikin_ashi klines ≡ none
    → (update_trend name klines now s ≡ some s) × (is_readable klines ≡ false)
unfolding update_trend
update_unread name klines now s h = ground arith

update_read :
    (name : String) (klines : List (Option Kline)) (candles : List HaCandle) (now : ℕ) (s : Service)
    → compute_heikin_ashi klines ≡ some candles
    → s.locked ≡ false
    → (update_trend name klines now s ≡ some (store_trend name (compute_trend candles) now s))
      × (is_readable klines ≡ true)
unfolding update_trend
update_read name klines candles now s h free = ground arith

trend_update-Leaves :
    (ttl : ℕ) (times : String → ℕ) (name : String) (klines : List (Option Kline)) (now : ℕ)
    (s : Service)
    → IsUpdated ttl times s
    → Leaves ttl
        (λ symbol. after (Call.trend_update name klines now) symbol (times symbol))
        (update_trend name klines now s)
unfolding store_trend
trend_update-Leaves ttl times name klines now s h =
    elim (Option-cases (compute_heikin_ashi klines)) [
      | inl none_read ↦
          let (same_service, unread) = update_unread name klines now s none_read in
          (
            s,
            same_service,
            IsUpdated-again ttl times _ s
                (λ symbol.
                  same_twice (same name symbol) (times symbol)
                  ∙ ap
                      (λ b.
                        if same name symbol
                        then (if b then now else times symbol)
                        else times symbol)
                      (sym unread))
                h,
          )
      | inr (candles, all_read) ↦
          let (stored, read) = update_read name klines candles now s all_read h.0 in
          let s' = store_trend name (compute_trend candles) now s in
          (
            s',
            stored,
            IsUpdated-again ttl _ _ s'
                (λ symbol.
                  ap
                    (λ b.
                      if same name symbol then (if b then now else times symbol) else times symbol)
                    (sym read))
                (IsUpdated-with ttl times name _ s s' h refl refl refl),
          )
    ]

free_call :
    (name : String) (st : SymbolState) (s : Service)
    → s.locked ≡ false
    → (if s.locked then none else some (record s { states = insert name st s.states }))
      ≡ some (record s { states = insert name st s.states })
free_call name st s free = ground arith

free_question :
    (name : String) (b : Bool) (s : Service)
    → s.locked ≡ false
    → service_of (with_lock (λ t. (get_or_create name t, b)) s)
      ≡ some (record s { states = insert name (state_of name s) s.states })
unfolding with_lock get_or_create
free_question name b s free = ground arith

apply-Leaves :
    (ttl : ℕ) (times : String → ℕ) (c : Call) (s : Service)
    → IsUpdated ttl times s
    → Leaves ttl (λ symbol. after c symbol (times symbol)) (apply c s)
unfolding update_entry_gate needs_trend_refresh needs_entry_refresh with_lock get_or_create
apply-Leaves ttl times (Call.trend_update name klines now) s h =
    trend_update-Leaves ttl times name klines now s h
apply-Leaves ttl times (Call.entry_update name price opening now) s h =
    created-Leaves ttl times name _ s _ (free_call name _ s h.0) refl h
apply-Leaves ttl times (Call.trend_question name now) s h =
    created-Leaves ttl times name (state_of name s) s _ (free_question name _ s h.0) refl h
apply-Leaves ttl times (Call.entry_question name now) s h =
    created-Leaves ttl times name (state_of name s) s _ (free_question name _ s h.0) refl h

run-Leaves :
    (ttl entry_ttl : ℕ) (cs : List Call)
    → Leaves ttl (λ symbol. last_trend symbol cs) (run ttl entry_ttl cs)
unfolding init lookup
run-Leaves ttl entry_ttl [] = (init ttl entry_ttl, refl, (refl, refl, λ symbol. refl))
run-Leaves ttl entry_ttl (c ∷ cs) =
    let (s, ran, h) = run-Leaves ttl entry_ttl cs in
    rw (ran) (apply-Leaves ttl (λ symbol. last_trend symbol cs) c s h)

-- Whatever updates and questions a new service is asked, they all return, and then it asks for a new trend
-- of a symbol exactly if more than the lifetime has passed since the last update of the symbol whose klines
-- could be read, or, where there was none, since the reading 0 of the clock.
pub needs_trend_refresh_exact :
    (ttl entry_ttl : ℕ) (cs : List Call) (symbol : String) (now : ℕ)
    → (s : Service) × (s' : Service) × (run ttl entry_ttl cs ≡ some s)
      × (needs_trend_refresh symbol now s ≡ some (s', ltb (last_trend symbol cs + ttl) now))
unfolding needs_trend_refresh with_lock
needs_trend_refresh_exact ttl entry_ttl cs symbol now =
    let (s, ran, (free, size, old)) = run-Leaves ttl entry_ttl cs in
    let time = old symbol in (s, get_or_create symbol s, ran, ground arith)
