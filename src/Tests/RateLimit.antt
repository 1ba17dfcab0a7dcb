-- ===== src/Tests/RateLimit.antt =====
-- Two keys under a bound of two requests in ten seconds.
use saas_forge.Base.{◌+◌, ◌*◌, ◌≤◌, true, false, List, [], ◌∷◌, ◌++◌, none, ◌≡◌, refl, arith}
use saas_forge.RateLimit.{new_ip_limiter}
use saas_forge.RateLimit.Windows.{Request, answers, window_answers, answers-new_ip_limiter}
use saas_forge.RateLimit.Bound.{passed, answers-bound}

abbrev first_requests : List Request
first_requests = (1, "a") ∷ (2, "b") ∷ (3, "a") ∷ []

abbrev next_requests : List Request
next_requests = (4, "a") ∷ (12, "a") ∷ (13, "b") ∷ []

first_answers :
    answers "a" (new_ip_limiter 2 10) (first_requests ++ next_requests)
    ≡ true ∷ true ∷ false ∷ true ∷ []
unfolding answers new_ip_limiter
first_answers = refl

answers-new_ip_limiter_example :
    answers "a" (new_ip_limiter 2 10) (first_requests ++ next_requests)
    ≡ window_answers 2 10 "a" none (first_requests ++ next_requests)
answers-new_ip_limiter_example =
    answers-new_ip_limiter "a" 2 10 (first_requests ++ next_requests) refl refl (omega arith)

answers-bound_example :
    passed (answers "a" (new_ip_limiter 2 10) (first_requests ++ next_requests))
    ≤ passed (answers "a" (new_ip_limiter 2 10) first_requests) + 2 * 2
answers-bound_example =
    answers-bound "a" 2 10 first_requests next_requests 4 refl refl (omega arith) (omega arith)
