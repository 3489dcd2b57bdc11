-- ===== src/Tests/Origin.antt =====
-- internal/origin/chain: a peer that declines, a not-found page, a 503 with a body, and a success.
use cadish.Origin.{not_found, skip, status_error, Outcome, ok, err}
use cadish.Origin.Chain.{Attempt, default_fall_through, fetch}
use cadish.Origin.Chain.Bodies.{count, bodies, opened, fetch-bodies}
use cadish.Origin.Chain.Verdict.{outcomes, cancelled_none, verdict, fetch-verdict}
use cadish.Origin.Chain.Writes.{first_answer, takers, takers-fetch, fetch-first_answer}
use cadish.Prelude.{◌+◌, ◌≤◌, ◌≡◌, refl, true, false, List, [], ◌∷◌, some, take}

abbrev says : Outcome → Attempt
says o = record { cancelled = false; outcome = o }

abbrev declined : Attempt
declined = says (err skip)

abbrev missing : Attempt
missing = says (ok (record { status_code = 404; negative = true; body = 1 }))

abbrev failing : Attempt
failing = says (err (status_error 503 (some 2)))

abbrev success : Attempt
success = says (ok (record { status_code = 200; negative = false; body = 3 }))

-- The held not-found page wins over the later 503, whose body is closed.
page_wins :
    (fetch default_fall_through false (missing ∷ failing ∷ [])).result
    ≡ ok (record { status_code = 404; negative = true; body = 1 })
unfolding fetch default_fall_through
page_wins = refl

failure_closed : (fetch default_fall_through false (missing ∷ failing ∷ [])).released ≡ 2 ∷ []
unfolding fetch default_fall_through
failure_closed = refl

-- An origin that declines at the end of the chain hides the failure before it.
failure_hidden : (fetch default_fall_through false (failing ∷ declined ∷ [])).result ≡ err not_found
unfolding fetch default_fall_through
failure_hidden = refl

abbrev all_four : List Attempt
all_four = declined ∷ missing ∷ failing ∷ success ∷ []

fetch-verdict_example :
    (fetch default_fall_through false all_four).result
    ≡ verdict default_fall_through (outcomes all_four)
fetch-verdict_example = fetch-verdict default_fall_through all_four (unfold cancelled_none in refl)

fetch-bodies_example :
    count 2 (opened (fetch default_fall_through false all_four).asked all_four)
    ≡ count 2 (fetch default_fall_through false all_four).released
      + count 2 (bodies (fetch default_fall_through false all_four).result)
fetch-bodies_example = fetch-bodies default_fall_through false all_four 2

takers-fetch_example :
    takers (take (fetch default_fall_through true all_four).asked (outcomes all_four)) ≤ 1
takers-fetch_example = takers-fetch default_fall_through all_four

fetch-first_answer_example :
    (fetch default_fall_through true all_four).result ≡ first_answer (outcomes all_four)
fetch-first_answer_example =
    fetch-first_answer default_fall_through all_four (unfold cancelled_none in refl)
