-- ===== src/Orphans/Detection.antt =====
-- What `scan_louise_orphans` of runtime/core/orphan_guard.py reports.
use pecunator_accu_monetas.Prelude.{
  ℕ, ◌-◌, ◌<◌, ◌≡◌, refl, ◌⊎◌, inl, inr, true, Option, none, some, List, [], ◌∷◌, ◌++◌, arith, All,
  All-map, Option-cases, Bool-cases, ltb,
}
use pecunator_accu_monetas.Louise.Store.{
  Bot, Epoch, Purchase, Db, get_active_epoch, get_purchases_by_epoch,
}
use pecunator_accu_monetas.Orphans.Stale.{
  LouiseOrphan, is_working, last_purchase, check_epoch, check_bot, check_bots, scan_louise_orphans,
}

-- The last activity of an epoch, a purchase or its creation, is before a time.
abbrev pub IsIdleSince : ℕ → Epoch → Option Purchase → Type 0
IsIdleSince time e last =
    ((last ≡ none) × (e.created_at < time))
    ⊎ ((p : Purchase) × (last ≡ some p) × (p.created_at < time))

-- A report of a bot: it works, its active epoch is the reported one, and it has been idle.
abbrev pub IsReportOf : ℕ → Db → Bot → LouiseOrphan → Type 0
IsReportOf cutoff db bot o =
    (is_working bot.status ≡ true)
    × (o.bot_id ≡ bot.bot_id)
    × ((e : Epoch) × (get_active_epoch bot.bot_id db ≡ some e)
        × (o.epoch_id ≡ e.epoch_id)
        × IsIdleSince cutoff e (last_purchase (get_purchases_by_epoch e.epoch_id db)))

All-append {ℓ κ} :
    {A : Type ℓ} (P : A → Type κ) (xs ys : List A) → All P xs → All P ys → All P (xs ++ ys)
All-append P [] ys hx hy = hy
All-append P (x ∷ xs) ys (h, hx) hy = (h, All-append P xs ys hx hy)

check_epoch-idle :
    (cutoff : ℕ) (bot : Bot) (e : Epoch) (last : Option Purchase)
    → All
        (λ o. (o.bot_id ≡ bot.bot_id) × (o.epoch_id ≡ e.epoch_id) × IsIdleSince cutoff e last)
        (check_epoch cutoff bot e last)
unfolding check_epoch
check_epoch-idle cutoff bot e none = elim (Bool-cases (ltb e.created_at cutoff)) [
  | inl old ↦ rw (old) ((refl, refl, inl (refl, ground arith)), tt)
  | inr recent ↦ rw (recent) tt
]
check_epoch-idle cutoff bot e (some p) = elim (Bool-cases (ltb p.created_at cutoff)) [
  | inl old ↦ rw (old) ((refl, refl, inr (p, refl, ground arith)), tt)
  | inr recent ↦ rw (recent) tt
]

check_bot_sound :
    (cutoff : ℕ) (db : Db) (bot : Bot) → All (IsReportOf cutoff db bot) (check_bot cutoff db bot)
unfolding check_bot
check_bot_sound cutoff db bot = elim (Bool-cases (is_working bot.status)) [
  | inr idle ↦ rw (idle) tt
  | inl working ↦ elim (Option-cases (get_active_epoch bot.bot_id db)) [
    | inl none_active ↦ rw (working, none_active) tt
    | inr (e, active) ↦
        rw (working, active)
          (All-map _ _ _ (λ o p. (working, p.0, (e, active, p.1, p.2)))
            (check_epoch-idle cutoff bot e (last_purchase (get_purchases_by_epoch e.epoch_id db))))
  ]
]

abbrev pub Member : Bot → List Bot → Type 0
Member x [] = ⊥
Member x (y ∷ ys) = (x ≡ y) ⊎ Member x ys

-- A report of one of these bots.
abbrev IsReportIn : ℕ → Db → List Bot → LouiseOrphan → Type 0
IsReportIn cutoff db bots o = (bot : Bot) × Member bot bots × IsReportOf cutoff db bot o

check_bots_sound :
    (cutoff : ℕ) (db : Db) (bots : List Bot)
    → All (IsReportIn cutoff db bots) (check_bots cutoff db bots)
unfolding check_bots
check_bots_sound cutoff db [] = tt
check_bots_sound cutoff db (b ∷ bs) =
    All-append (IsReportIn cutoff db (b ∷ bs)) (check_bot cutoff db b) _
      (All-map _ _ _ (λ o p. (b, inl refl, p)) (check_bot_sound cutoff db b))
      (All-map _ _ _ (λ o p. (p.0, inr p.1, p.2)) (check_bots_sound cutoff db bs))

-- Every epoch that the scan reports is the active one of a bot of the database whose status is
-- RUNNING or ACCUMULATING, and its last purchase, or its creation if it has none, is before the
-- cutoff: the epoch of a bot that is paused or shut down is never reported.
pub scan_louise_orphans_sound :
    (stale now : ℕ) (db : Db)
    → All
        (λ o. (bot : Bot) × Member bot db.bots × IsReportOf (now - stale) db bot o)
        (scan_louise_orphans stale now db)
unfolding scan_louise_orphans
scan_louise_orphans_sound stale now db = check_bots_sound (now - stale) db db.bots
