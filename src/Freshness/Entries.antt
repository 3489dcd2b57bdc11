-- ===== src/Freshness/Entries.antt =====
-- The sharded index, as one map.
use cadish.Freshness.{FreshEntry, Index, shard_of, entry, put, forget, banned, observe_window}
use cadish.Prelude.Dict.{lookup-insert, lookup-erase}
use cadish.Prelude.{◌≡◌, refl, none, some, String, str_eq, eq_iff, if◌then◌else◌, arith}
use cadish.Time.{Time, Duration}

pub entry-put :
    (k q : String) (e : FreshEntry) (f : Index)
    → entry q (put k e f) ≡ (if str_eq k q then some e else entry q f)
unfolding entry put
entry-put k q e f = ground (arith, eq_iff k q, lookup-insert k q e (f.shards (shard_of k)))

pub entry-forget :
    (k q : String) (f : Index) → entry q (forget k f) ≡ (if str_eq k q then none else entry q f)
unfolding entry forget
entry-forget k q f = ground (arith, eq_iff k q, lookup-erase k q (f.shards (shard_of k)))

pub banned-put :
    (k q : String) (e : FreshEntry) (t : Time) (f : Index) → banned q t (put k e f) ≡ banned q t f
unfolding banned put
banned-put k q e t f = refl

pub banned-forget : (k q : String) (t : Time) (f : Index) → banned q t (forget k f) ≡ banned q t f
unfolding banned forget
banned-forget k q t f = refl

pub entry-observe_window :
    (w : Duration) (q : String) (f : Index) → entry q (observe_window w f) ≡ entry q f
unfolding entry observe_window
entry-observe_window w q f = ground arith

pub banned-observe_window :
    (w : Duration) (q : String) (t : Time) (f : Index)
    → banned q t (observe_window w f) ≡ banned q t f
unfolding banned observe_window
banned-observe_window w q t f = ground arith
