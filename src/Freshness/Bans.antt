-- ===== src/Freshness/Bans.antt =====
-- Bans: what a new one invalidates, and what the pruning and the cap of the list forget.
use cadish.Freshness.{BanEntry, Index, max_bans, any_ban, banned, keep_after, bans_with, ban}
use cadish.Prelude.Int.{pos, ◌+ℤ◌, ◌-ℤ◌, ◌≤ℤ◌, int_laws, +ℤ_parts, -ℤ_parts}
use cadish.Prelude.{
  ℕ, zero, suc, ◌+◌, ◌-◌, ◌≤◌, ◌<◌, ◌≡◌, ◌⊎◌, refl, ap, ◌∙◌, Bool, true, false, ◌&&◌, ◌||◌, List,
  [], ◌∷◌, ◌++◌, String, arith, length, length-append, length-drop, drop, inl, inr,
}
use cadish.Time.{Time, Duration, before, ◌<ℤ◌, int64, Fits, int64_id}

any_ban-append :
    (q : String) (s : Time) (l : List BanEntry) (b : BanEntry)
    → any_ban q s (l ++ b ∷ []) ≡ (any_ban q s l || (before s b.issued_at && b.re q))
unfolding any_ban
any_ban-append q s [] b = ground arith
any_ban-append q s (c ∷ l) b = ground (arith, any_ban-append q s l b)

-- A ban up to the cutoff was issued before the entries stored since.
dropped_ban :
    (cutoff s issued : Time) → cutoff ≤ℤ s → before cutoff issued ≡ false → before s issued ≡ false
unfolding before
dropped_ban cutoff s issued le h = ground arith

any_ban-keep_after :
    (cutoff : Time) (q : String) (s : Time) (l : List BanEntry)
    → cutoff ≤ℤ s
    → any_ban q s (keep_after cutoff l) ≡ any_ban q s l
unfolding any_ban keep_after
any_ban-keep_after cutoff q s [] le = refl
any_ban-keep_after cutoff q s (b ∷ l) le =
    ground (arith, dropped_ban cutoff s b.issued_at le, any_ban-keep_after cutoff q s l le)

-- The cutoff that `ban` uses.
abbrev pub cutoff_of : Time → Duration → Time
cutoff_of now w = now +ℤ int64 (pos 0 -ℤ (w +ℤ w))

-- An entry is within the largest window ever recorded, so the cutoff does not pass it.
cutoff-le :
    (now s : Time) (w : Duration)
    → pos 0 ≤ℤ w
    → Fits (pos 0 -ℤ (w +ℤ w))
    → ◌<ℤ◌ now (s +ℤ w)
    → cutoff_of now w ≤ℤ s
cutoff-le now s w nonneg fits live = rw (int64_id (pos 0 -ℤ (w +ℤ w)) fits) (
    omega (
      int_laws,
      +ℤ_parts s w,
      +ℤ_parts w w,
      +ℤ_parts now (pos 0 -ℤ (w +ℤ w)),
      -ℤ_parts (pos 0) (w +ℤ w),
    ))

-- The list counts itself.
banned-any_ban :
    (q : String) (s : Time) (f : Index)
    → f.ban_count ≡ length f.bans
    → banned q s f ≡ any_ban q s f.bans
unfolding banned any_ban
banned-any_ban q s f counted = elim (List-cases f.bans) [
  | inl e ↦ rw e (ground (arith, e))
  | inr (b, l, e) ↦ ground (arith, e)
]
  where
    List-cases :
        (l : List BanEntry) → (l ≡ []) ⊎ ((b : BanEntry) × (m : List BanEntry) × (l ≡ b ∷ m))
    List-cases [] = inl refl
    List-cases (b ∷ m) = inr (b, m, refl)

ban-length :
    (now : Time) (re : String → Bool) (f : Index)
    → (ban now re f).0.ban_count ≡ length (ban now re f).0.bans
unfolding ban
ban-length now re f = refl

-- A ban at `now`, on an index whose counter is right and whose widest window `w` is not
-- negative and whose double an int64 holds,
-- where fewer than the most bans are left by the pruning: of an object whose window may still be open,
-- stored at `s` with `now` before `s + w`, the invalidation afterwards is that before, or the new ban's:
-- stored before `now`, with a key that the pattern matches. No ban that matters is forgotten.
pub banned-ban :
    (now : Time) (re : String → Bool) (q : String) (s : Time) (f : Index)
    → f.ban_count ≡ length f.bans
    → pos 0 ≤ℤ f.max_grace
    → Fits (pos 0 -ℤ (f.max_grace +ℤ f.max_grace))
    → length (keep_after (cutoff_of now f.max_grace) f.bans) < max_bans
    → ◌<ℤ◌ now (s +ℤ f.max_grace)
    → banned q s (ban now re f).0 ≡ (banned q s f || (before s now && re q))
unfolding ban
banned-ban now re q s f counted nonneg fits room live = rw (banned-any_ban q s f counted) (
    banned-any_ban q s (ban now re f).0 (ban-length now re f)
    ∙ ground (
      arith,
      any_ban-append q s (keep_after (cutoff_of now f.max_grace) f.bans)
          (record { re = re; issued_at = now }),
      any_ban-keep_after (cutoff_of now f.max_grace) q s f.bans
          (cutoff-le now s f.max_grace nonneg fits live),
    ))

-- The list of bans never holds more than the most, and the counter counts it.
pub ban_bounds :
    (now : Time) (re : String → Bool) (f : Index)
    → (length (ban now re f).0.bans ≤ max_bans)
      × ((ban now re f).0.ban_count ≡ length (ban now re f).0.bans)
unfolding ban
ban_bounds now re f = (
  ground (
    arith,
    length-append kept (record { re = re; issued_at = now } ∷ []),
    length-append (drop (length kept - max_bans + 1) kept)
        (record { re = re; issued_at = now } ∷ []),
    length-drop (length kept - max_bans + 1) kept,
  ),
  refl,
)
  where
    kept : List BanEntry
    kept = keep_after (cutoff_of now f.max_grace) f.bans

any_ban_cons :
    (q : String) (s : Time) (b : BanEntry) (l : List BanEntry)
    → any_ban q s (b ∷ l) ≡ (before s b.issued_at && b.re q || any_ban q s l)
unfolding any_ban
any_ban_cons q s b l = ground arith

-- Every ban is after the cutoff.
abbrev pub AllAfter : Time → List BanEntry → Type 0
AllAfter cutoff [] = Unit
AllAfter cutoff (b ∷ l) = (before cutoff b.issued_at ≡ true) × AllAfter cutoff l

keep_after_all : (cutoff : Time) (l : List BanEntry) → AllAfter cutoff l → keep_after cutoff l ≡ l
unfolding keep_after
keep_after_all cutoff [] h = refl
keep_after_all cutoff (b ∷ l) (h, hs) = ground (arith, keep_after_all cutoff l hs)

drop_one : (n : ℕ) (b : BanEntry) (l : List BanEntry) → n ≡ 1 → drop n (b ∷ l) ≡ l
drop_one zero b l h = absurd (omega arith)
drop_one (suc zero) b l h = refl
drop_one (suc (suc n)) b l h = absurd (omega arith)

bans_with_full :
    (now : Time) (w : Duration) (new b : BanEntry) (l m : List BanEntry)
    → keep_after (cutoff_of now w) m ≡ b ∷ l
    → suc (length l) ≡ max_bans
    → bans_with now w new m ≡ l ++ new ∷ []
unfolding bans_with
bans_with_full now w new b l m e full =
    rw e (ground (arith, drop_one (suc (length l) - max_bans + 1) b l))

-- When the list is full of bans that the pruning keeps, a new ban drops the oldest: an object that
-- only the oldest one invalidates, and the new one does not match, is no longer invalidated.
pub oldest_ban_forgotten :
    (now : Time) (re : String → Bool) (q : String) (s : Time) (f : Index) (b : BanEntry)
    (l : List BanEntry)
    → f.bans ≡ b ∷ l
    → f.ban_count ≡ length f.bans
    → length f.bans ≡ max_bans
    → AllAfter (cutoff_of now f.max_grace) f.bans
    → (before s b.issued_at && b.re q) ≡ true
    → any_ban q s l ≡ false
    → re q ≡ false
    → (banned q s f ≡ true) × (banned q s (ban now re f).0 ≡ false)
unfolding ban
oldest_ban_forgotten now re q s f b l e counted full recent hit rest other = (
  banned-any_ban q s f counted ∙ rw e (any_ban_cons q s b l ∙ rw (hit) refl),
  banned-any_ban q s (ban now re f).0 (ban-length now re f)
      ∙ rw
          (bans_with_full now f.max_grace (record { re = re; issued_at = now }) b l f.bans
            (keep_after_all (cutoff_of now f.max_grace) f.bans recent ∙ e)
            (omega (arith, ap length e)))
          (any_ban-append q s l (record { re = re; issued_at = now }) ∙ ground arith),
)
