-- ===== src/Tests/Coalesce.antt =====
-- internal/server/coalesce.go: two requests for a key, of which the first fetches, and one for another.
use cadish.Prelude.Dict.{erase}
use cadish.Prelude.{◌≤◌, ◌≡◌, ◌⊎◌, refl, true, false, [], ◌∷◌, some}
use cadish.Server.Coalesce.Ending.{ended}
use cadish.Server.Coalesce.Steps.{World, new_world, arrive, Reached, started, arrived, fetching}
use cadish.Server.Coalesce.Wake.{fetching-le, finish-Reached, CanWake, waiter-CanWake}
use cadish.Server.Coalesce.{enter, finish, begin, end}

abbrev herd : World
herd = arrive "/b" (arrive "/a" (arrive "/a" new_world))

herd-Reached : Reached herd
herd-Reached = arrived _ "/b" (arrived _ "/a" (arrived _ "/a" started))

herd_winners : herd.winners ≡ ("/b", 1) ∷ ("/a", 0) ∷ []
unfolding enter erase
herd_winners = refl

herd_waiters : herd.waiters ≡ 0 ∷ []
unfolding enter erase
herd_waiters = refl

second_refused : (begin "/a" (begin "/a" []).1).0 ≡ false
unfolding begin
second_refused = refl

admitted_after_end : (begin "/a" (end "/a" (begin "/a" []).1)).0 ≡ true
unfolding begin end
admitted_after_end = refl

fetching-le_example : fetching "/a" herd.winners ≤ 1
fetching-le_example = fetching-le herd "/a" herd-Reached

finish-Reached_example :
    finish "/a" 0 true herd.table
    ≡ some (ended "/a" 0 (("/b", 1) ∷ []) [] herd.table herd.waiters true).table
finish-Reached_example =
    finish-Reached herd "/a" 0 (("/b", 1) ∷ []) [] true herd-Reached herd_winners

waiter-CanWake_example : ((herd.table.heap 0).finished ≡ true) ⊎ CanWake herd 0
waiter-CanWake_example = waiter-CanWake herd 0 [] [] herd-Reached herd_waiters
