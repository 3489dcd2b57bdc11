-- ===== src/Tests/Freshness.antt =====
-- internal/server/freshness.go, with an object that is stored at 100 with a TTL of 10.
use cadish.Freshness.{
  FreshEntry, BanEntry, Index, miss, fresh, stale, new_index, entry, max_bans, any_ban, banned,
  store, keep_after, classify, stale_within, sweep, ban,
}
use cadish.Freshness.Bans.{banned-ban, oldest_ban_forgotten, cutoff_of, AllAfter}
use cadish.Freshness.Equivalence.{old_pair, classify-old_pair}
use cadish.Freshness.Reclaim.{HasDistinct, sweep_safe}
use cadish.Freshness.Timeline.{BansBy, classify-store, stale_within-store}
use cadish.Prelude.Dict.{lookup, has}
use cadish.Prelude.Int.{pos, ◌+ℤ◌, ◌-ℤ◌, ◌≤ℤ◌, ltb_ℤ}
use cadish.Prelude.{
  ℕ, zero, suc, ◌<◌, ◌≡◌, refl, Bool, true, false, not, ◌&&◌, ◌||◌, List, [], ◌∷◌, some, String,
  str_eq, if◌then◌else◌, length, replicate, arith,
}
use cadish.Time.{is_zero, before, ◌<ℤ◌, Fits, int64}

abbrev is_a : String → Bool
is_a key = str_eq key "a"

abbrev is_b : String → Bool
is_b key = str_eq key "b"

-- An index with a ban of "a" that was issued at 50.
abbrev with_ban : Index
with_ban = record new_index { bans = record { re = is_a; issued_at = pos 50 } ∷ []; ban_count = 1 }

abbrev with_object : Index
with_object = store (pos 100) "a" (pos 10) (pos 5) (pos 20) with_ban

classify-old_pair_example : classify (pos 105) "a" with_object ≡ old_pair (pos 105) "a" with_object
classify-old_pair_example = classify-old_pair (pos 105) "a" with_object

old_ban : BansBy (pos 100) with_ban.bans
old_ban = (ground arith, tt)

grace-Fits : Fits (pos 10 +ℤ pos 5)
unfolding ◌+ℤ◌
grace-Fits = (omega arith, omega arith)

stale-Fits : Fits (pos 10 +ℤ pos 5 +ℤ pos 20)
unfolding ◌+ℤ◌
stale-Fits = (omega arith, omega arith)

classify-store_example :
    ((classify (pos 112) "a" with_object).1 ≡ (
      if before (pos 112) (pos 100 +ℤ pos 10)
      then fresh
      else if before (pos 112) (pos 100 +ℤ (pos 10 +ℤ pos 5))
      then stale
      else miss))
    × ((classify (pos 112) "a" with_object).2 ≡ false)
classify-store_example =
    classify-store (pos 100) (pos 112) "a" (pos 10) (pos 5) (pos 20) with_ban old_ban grace-Fits

window_ends : is_zero (pos 100 +ℤ (pos 10 +ℤ pos 5 +ℤ pos 20)) ≡ false
unfolding is_zero ◌+ℤ◌
window_ends = refl

stale_within-store_example : stale_within (pos 120) "a" with_object ≡ (
    if ltb_ℤ (pos 0) (pos 20)
    then not (before (pos 120) (pos 100 +ℤ (pos 10 +ℤ pos 5)))
      && before (pos 120) (pos 100 +ℤ (pos 10 +ℤ pos 5 +ℤ pos 20))
    else false)
stale_within-store_example =
    stale_within-store (pos 100) (pos 120) "a" (pos 10) (pos 5) (pos 20) with_ban old_ban grace-Fits
      stale-Fits window_ends

abbrev one_entry : FreshEntry
one_entry = record {
  stored_at = pos 100;
  expires = pos 110;
  grace_until = pos 115;
  max_stale_until = pos 135;
  hfm_until = pos 0;
}

-- The entry of "a" in every shard.
abbrev one_object : Index
one_object = record with_ban { shards = λ i. ("a", one_entry) ∷ [] }

no_duplicates : HasDistinct one_object
unfolding has
no_duplicates i = (refl, tt)

in_order : (e : FreshEntry) → entry "a" one_object ≡ some e → e.expires ≤ℤ e.grace_until
unfolding entry lookup
in_order e h = ground arith

sweep_safe_example :
    ((classify (pos 140) "a" (sweep (pos 136) one_object)).1
      ≡ (classify (pos 140) "a" one_object).1)
    × ((classify (pos 140) "a" (sweep (pos 136) one_object)).2
        ≡ (classify (pos 140) "a" one_object).2)
    × (stale_within (pos 140) "a" (sweep (pos 136) one_object)
        ≡ stale_within (pos 140) "a" one_object)
sweep_safe_example =
    sweep_safe (pos 136) (pos 140) "a" one_object no_duplicates in_order (ground arith)

abbrev wide : Index
wide = record with_ban { max_grace = pos 100 }

few_bans : length (keep_after (cutoff_of (pos 120) wide.max_grace) wide.bans) < max_bans
unfolding int64 keep_after before ◌-ℤ◌ ◌+ℤ◌
few_bans = omega arith

window_open : ◌<ℤ◌ (pos 120) (pos 110 +ℤ wide.max_grace)
unfolding ◌+ℤ◌
window_open = ground arith

double-Fits : Fits (pos 0 -ℤ (wide.max_grace +ℤ wide.max_grace))
unfolding ◌+ℤ◌ ◌-ℤ◌
double-Fits = (omega arith, omega arith)

banned-ban_example :
    banned "b" (pos 110) (ban (pos 120) is_b wide).0
    ≡ (banned "b" (pos 110) wide || (before (pos 110) (pos 120) && is_b "b"))
banned-ban_example =
    banned-ban (pos 120) is_b "b" (pos 110) wide refl (ground arith) double-Fits few_bans
      window_open

abbrev oldest : BanEntry
oldest = record { re = is_a; issued_at = pos 50 }

abbrev newer : List BanEntry
newer = replicate 255 (record { re = is_b; issued_at = pos 60 })

abbrev full : Index
full = record new_index { bans = oldest ∷ newer; ban_count = 256; max_grace = pos 100 }

newer-AllAfter :
    (n : ℕ) → AllAfter (pos 20) (replicate n (record { re = is_b; issued_at = pos 60 }))
unfolding before
newer-AllAfter zero = tt
newer-AllAfter (suc n) = (refl, newer-AllAfter n)

newer-any_ban :
    (n : ℕ) → any_ban "a" (pos 40) (replicate n (record { re = is_b; issued_at = pos 60 })) ≡ false
unfolding any_ban before
newer-any_ban zero = refl
newer-any_ban (suc n) = newer-any_ban n

all_kept : AllAfter (cutoff_of (pos 120) full.max_grace) full.bans
unfolding int64 before ◌-ℤ◌ ◌+ℤ◌
all_kept = (refl, newer-AllAfter 255)

matches : (before (pos 40) oldest.issued_at && oldest.re "a") ≡ true
unfolding before
matches = refl

oldest_ban_forgotten_example :
    (banned "a" (pos 40) full ≡ true) × (banned "a" (pos 40) (ban (pos 120) is_b full).0 ≡ false)
oldest_ban_forgotten_example =
    oldest_ban_forgotten (pos 120) is_b "a" (pos 40) full oldest newer refl refl refl all_kept
      matches (newer-any_ban 255) refl
