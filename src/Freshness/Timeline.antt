-- ===== src/Freshness/Timeline.antt =====
-- The life of an entry from its `store` on: fresh, stale in grace, fallback on an origin failure, gone.
use cadish.Freshness.Entries.{entry-put, entry-observe_window, banned-observe_window}
use cadish.Freshness.{
  FreshEntry, BanEntry, Index, miss, fresh, stale, entry, put, any_ban, banned, store, classify,
  stale_within,
}
use cadish.Prelude.Int.{pos, ◌+ℤ◌, ◌≤ℤ◌, ltb_ℤ}
use cadish.Prelude.{
  ◌≡◌, refl, ap, ◌∙◌, false, not, ◌&&◌, List, [], ◌∷◌, some, String, str_eq, eq_iff, if◌then◌else◌,
  arith, inl, inr, All, Bool-cases,
}
use cadish.Time.{Time, Duration, zero_time, is_zero, before, int64, Fits, int64_id}

-- Every ban was issued at `t` or before.
abbrev pub BansBy : Time → List BanEntry → Type 0
BansBy t l = All (λ b. b.issued_at ≤ℤ t) l

-- A new entry is immune to the bans that are there.
any_ban-old : (key : String) (t : Time) (l : List BanEntry) → BansBy t l → any_ban key t l ≡ false
unfolding any_ban before
any_ban-old key t [] h = refl
any_ban-old key t (b ∷ l) (h, hs) = ground (arith, any_ban-old key t l hs)

banned-old : (key : String) (t : Time) (f : Index) → BansBy t f.bans → banned key t f ≡ false
unfolding banned
banned-old key t f h = ground (arith, any_ban-old key t f.bans h)

-- The entry that `store` writes.
abbrev pub stored_entry : Time → Duration → Duration → Duration → FreshEntry
stored_entry now ttl grace max_stale = record {
  stored_at = now;
  expires = now +ℤ ttl;
  grace_until = now +ℤ int64 (ttl +ℤ grace);
  max_stale_until =
      if ltb_ℤ (pos 0) max_stale
      then now +ℤ int64 (int64 (ttl +ℤ grace) +ℤ max_stale)
      else zero_time;
  hfm_until = zero_time;
}

pub entry-store :
    (now : Time) (key q : String) (ttl grace max_stale : Duration) (f : Index)
    → entry q (store now key ttl grace max_stale f)
      ≡ (if str_eq key q then some (stored_entry now ttl grace max_stale) else entry q f)
unfolding store
entry-store now key q ttl grace max_stale f =
    entry-observe_window (int64 (int64 (ttl +ℤ grace) +ℤ max_stale)) q
      (put key (stored_entry now ttl grace max_stale) f)
    ∙ entry-put key q (stored_entry now ttl grace max_stale) f

pub banned-store :
    (now : Time) (key q : String) (ttl grace max_stale : Duration) (t : Time) (f : Index)
    → banned q t (store now key ttl grace max_stale f) ≡ banned q t f
unfolding store banned
banned-store now key q ttl grace max_stale t f =
    banned-observe_window (int64 (int64 (ttl +ℤ grace) +ℤ max_stale)) q t
      (put key (stored_entry now ttl grace max_stale) f)

-- The ends of the windows that a `store` writes, when an int64 holds their sums.
window_end :
    (ttl grace : Duration) (now : Time)
    → Fits (ttl +ℤ grace)
    → now +ℤ int64 (ttl +ℤ grace) ≡ now +ℤ (ttl +ℤ grace)
window_end ttl grace now a = ap (λ d. now +ℤ d) (int64_id (ttl +ℤ grace) a)

retention_end :
    (ttl grace max_stale : Duration) (now : Time)
    → Fits (ttl +ℤ grace)
    → Fits (ttl +ℤ grace +ℤ max_stale)
    → now +ℤ int64 (int64 (ttl +ℤ grace) +ℤ max_stale) ≡ now +ℤ (ttl +ℤ grace +ℤ max_stale)
retention_end ttl grace max_stale now a b =
    ap (λ d. now +ℤ int64 (d +ℤ max_stale)) (int64_id (ttl +ℤ grace) a)
    ∙ ap (λ d. now +ℤ d) (int64_id (ttl +ℤ grace +ℤ max_stale) b)

-- After a `store` at `now`, with all bans issued by then and a sum of TTL and grace that an int64 holds, a lookup at `t` is fresh up to the TTL,
-- then stale up to the end of the grace, then a miss, and never bypasses the cache.
pub classify-store :
    (now t : Time) (key : String) (ttl grace max_stale : Duration) (f : Index)
    → BansBy now f.bans
    → Fits (ttl +ℤ grace)
    → (classify t key (store now key ttl grace max_stale f)).1 ≡ (
        if before t (now +ℤ ttl)
        then fresh
        else if before t (now +ℤ (ttl +ℤ grace))
        then stale
        else miss)
      × ((classify t key (store now key ttl grace max_stale f)).2 ≡ false)
unfolding classify is_zero
classify-store now t key ttl grace max_stale f h a = ground (
  arith,
  window_end ttl grace now a,
  eq_iff key key,
  entry-store now key key ttl grace max_stale f,
  banned-store now key key ttl grace max_stale now f,
  banned-old key now f h,
)

-- After a `store` at `now` whose last window does not end at the zero time, with all bans issued by
-- then and sums of the windows that an int64 holds: if `max_stale` is positive the entry is a fallback for an origin failure exactly from the end
-- of the grace to the end of the max-stale window; else it never is.
pub stale_within-store :
    (now t : Time) (key : String) (ttl grace max_stale : Duration) (f : Index)
    → BansBy now f.bans
    → Fits (ttl +ℤ grace)
    → Fits (ttl +ℤ grace +ℤ max_stale)
    → is_zero (now +ℤ (ttl +ℤ grace +ℤ max_stale)) ≡ false
    → stale_within t key (store now key ttl grace max_stale f) ≡ (
        if ltb_ℤ (pos 0) max_stale
        then not (before t (now +ℤ (ttl +ℤ grace))) && before t (now +ℤ (ttl +ℤ grace +ℤ max_stale))
        else false)
unfolding stale_within is_zero
stale_within-store now t key ttl grace max_stale f h a b ends =
    elim (Bool-cases (ltb_ℤ (pos 0) max_stale)) [
      | inl opted ↦ ground (
        arith,
        window_end ttl grace now a,
        retention_end ttl grace max_stale now a b,
        eq_iff key key,
        entry-store now key key ttl grace max_stale f,
        banned-store now key key ttl grace max_stale now f,
        banned-old key now f h,
        ends,
      )
      | inr plain ↦ ground (
        arith,
        window_end ttl grace now a,
        retention_end ttl grace max_stale now a b,
        eq_iff key key,
        entry-store now key key ttl grace max_stale f,
        banned-store now key key ttl grace max_stale now f,
        banned-old key now f h,
      )
    ]
