-- ===== src/RateLimit/Bound.antt =====
-- How many requests of a key pass in the time of one window.
use saas_forge.Base.{
  All-imp, ℕ, ◌+◌, ◌*◌, ◌≤◌, String, Bool, false, List, [], ◌∷◌, ◌++◌, Option, some, none, ◌==◌,
  string_eq, nat_eq, ltb, leb, if◌then◌else◌, ◌≡◌, arith, All, Bool-cases, inl, inr, count,
}
use saas_forge.RateLimit.{minute, WindowState, take_slot, new_ip_limiter}
use saas_forge.RateLimit.Windows.{
  Request, answers, window_answers, IsTimed, later, answers-new_ip_limiter,
}

-- How many answers let a request pass.
abbrev pub passed : List Bool → ℕ
passed l = count (λ b. b) l

-- The instants of a run are in the time of one window from `start` on.
abbrev pub IsWithin : ℕ → ℕ → List Request → Type 0
IsWithin start window rs = All (λ (r : Request). (start ≤ r.0) × (r.0 ≤ start + window)) rs

abbrev IsCapped : ℕ → Option WindowState → Type 0
IsCapped max none = Unit
IsCapped max (some w) = w.count ≤ max

-- What one window with some count lets pass before it ends.
lasting_bound :
    (max window : ℕ) (key : String) (w : WindowState) (rs : List Request) (end_ : ℕ)
    → w.count ≤ max
    → end_ ≤ w.reset_at
    → All (λ (r : Request). r.0 ≤ end_) rs
    → passed (window_answers max window key (some w) rs) + w.count ≤ max
unfolding window_answers take_slot
lasting_bound max window key w [] end_ capped lasts within = omega (arith, capped)
lasting_bound max window key w ((now, k) ∷ rs) end_ capped lasts (early, within) =
    elim (Bool-cases (k == key)) [
      | inr other ↦ rw other (lasting_bound max window key w rs end_ capped lasts within)
      | inl same ↦
          let lasting : ltb w.reset_at now ≡ false = ground (arith, lasts, early) in
          elim (Bool-cases (leb max w.count)) [
            | inl full ↦ rw same (
                rw (lasting, full)
                  (omega (arith, lasting_bound max window key w rs end_ capped lasts within)))
            | inr free ↦
                let more : w.count + 1 ≤ max = ground (arith, free) in
                rw same (
                  rw (lasting, free)
                    (omega (
                      arith,
                      lasting_bound max window key (record w { count = w.count + 1 }) rs end_ more
                          lasts within,
                    )))
          ]
    ]

used : Option WindowState → ℕ
used none = 0
used (some w) = w.count

-- What a window that opens now lets pass until it ends, with the request that opens it.
opened_bound :
    (max window : ℕ) (key : String) (now start : ℕ) (rs : List Request)
    → (max == 0) ≡ false
    → start ≤ now
    → IsWithin start window rs
    → passed
          (window_answers max window key (some (record { count = 1; reset_at = now + window })) rs)
        + 1
      ≤ max
opened_bound max window key now start rs positive le within =
    lasting_bound max window key (record { count = 1; reset_at = now + window }) rs (start + window)
      (ground (arith, positive)) (omega (arith, le)) (All-imp _ _ rs (λ r h. h.1) within)

-- From any state of the window on.
within_bound :
    (max window : ℕ) (key : String) (st : Option WindowState) (rs : List Request) (start : ℕ)
    → (max == 0) ≡ false
    → IsCapped max st
    → IsWithin start window rs
    → passed (window_answers max window key st rs) + used st ≤ 2 * max
unfolding window_answers take_slot used
within_bound max window key none [] start positive capped within = omega arith
within_bound max window key (some w) [] start positive capped within = omega (arith, capped)
within_bound max window key none ((now, k) ∷ rs) start positive capped ((le, _), within) =
    elim (Bool-cases (k == key)) [
      | inr other ↦ rw other (within_bound max window key none rs start positive tt within)
      | inl same ↦
          rw same (omega (arith, opened_bound max window key now start rs positive le within))
    ]
within_bound max window key (some w) ((now, k) ∷ rs) start positive capped ((le, _), within) =
    elim (Bool-cases (k == key)) [
      | inr other ↦ rw other (within_bound max window key (some w) rs start positive capped within)
      | inl same ↦ elim (Bool-cases (ltb w.reset_at now)) [
        | inl expired ↦ rw same (
            rw expired
              (omega (arith, capped, opened_bound max window key now start rs positive le within)))
        | inr lasting ↦ elim (Bool-cases (leb max w.count)) [
          | inl full ↦ rw same (
              rw (lasting, full)
                (omega
                  (arith, within_bound max window key (some w) rs start positive capped within)))
          | inr free ↦
              let more : w.count + 1 ≤ max = ground (arith, free) in
              rw same (
                rw (lasting, free)
                  (omega (
                    arith,
                    within_bound max window key (some (record w { count = w.count + 1 })) rs start
                        positive more within,
                  )))
        ]
      ]
    ]

take_slot-IsCapped :
    (max window now : ℕ) (st : Option WindowState)
    → (max == 0) ≡ false
    → IsCapped max st
    → IsCapped max (later st (take_slot max window now st).1)
unfolding take_slot
take_slot-IsCapped max window now none positive capped = ground (arith, positive)
take_slot-IsCapped max window now (some w) positive capped =
    elim (Bool-cases (ltb w.reset_at now)) [
      | inl expired ↦ rw expired (ground (arith, positive))
      | inr lasting ↦ elim (Bool-cases (leb max w.count)) [
        | inl full ↦ rw (lasting, full) capped
        | inr free ↦ rw (lasting, free) (ground (arith, free))
      ]
    ]

after_bound :
    (max window : ℕ) (key : String) (st : Option WindowState) (before rs : List Request) (start : ℕ)
    → (max == 0) ≡ false
    → IsCapped max st
    → IsWithin start window rs
    → passed (window_answers max window key st (before ++ rs))
      ≤ passed (window_answers max window key st before) + 2 * max
unfolding window_answers
after_bound max window key st [] rs start positive capped within =
    omega (arith, within_bound max window key st rs start positive capped within)
after_bound max window key st ((now, k) ∷ before) rs start positive capped within =
    elim (Bool-cases (k == key)) [
      | inr other ↦ rw other (after_bound max window key st before rs start positive capped within)
      | inl same ↦ rw same (
          omega (
            arith,
            after_bound max window key (later st (take_slot max window now st).1) before rs start
                positive (take_slot-IsCapped max window now st positive capped) within,
          ))
    ]

IsTimed-before : (t : ℕ) (before rs : List Request) → IsTimed t (before ++ rs) → IsTimed t before
IsTimed-before t [] rs h = tt
IsTimed-before t ((now, k) ∷ before) rs h = (h.0, IsTimed-before now before rs h.1)

-- In a run of requests whose instants do not go back, no more than twice the bound of a key's
-- requests pass within any time as long as the window, whatever came before.
pub answers-bound :
    (key : String) (max window : ℕ) (before rs : List Request) (start : ℕ)
    → (max == 0) ≡ false
    → (key == "") ≡ false
    → IsTimed 0 (before ++ rs)
    → IsWithin start (if window == 0 then minute else window) rs
    → passed (answers key (new_ip_limiter max window) (before ++ rs))
      ≤ passed (answers key (new_ip_limiter max window) before) + 2 * max
answers-bound key max window before rs start positive named timed within =
    rw
      (
        answers-new_ip_limiter key max window (before ++ rs) positive named timed,
        answers-new_ip_limiter key max window before positive named
            (IsTimed-before 0 before rs timed),
      )
      (after_bound max (if window == 0 then minute else window) key none before rs start positive tt
        within)
