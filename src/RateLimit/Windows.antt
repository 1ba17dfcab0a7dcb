-- ===== src/RateLimit/Windows.antt =====
-- Each key has a window of its own: the map that the keys share, and its sweeps, are not seen.
use mathlib.Core.Path.{subst}
use saas_forge.Base.{
  All-imp, ℕ, ◌≤◌, ◌<◌, String, Bool, true, false, List, [], ◌∷◌, Option, some, none, ◌==◌,
  string_eq, nat_eq, not, ltb, leb, if◌then◌else◌, ◌&&◌, is_some, length, ◌≡◌, refl, sym, ap, ◌∙◌,
  arith, All, Bool-cases, Option-cases, inl, inr, ◌⊎◌, equal_refl,
}
use saas_forge.RateLimit.{
  minute, new_ip_limiter, sweep_threshold, IpLimiter, WindowState, Seen, state_of, delete, put,
  sweep, swept, take_slot, written, allow,
}

-- A request: its instant and its key.
abbrev pub Request : Type 0
Request = ℕ × String

-- The answers to the requests of a key in a run of the limiter, in order.
unfoldable pub answers : String → IpLimiter → List Request → List Bool
unfolding allow
answers key l [] = []
answers key l ((now, k) ∷ rs) =
    let rest = answers key (allow l now k).1 rs in
    if k == key then (allow l now k).0 ∷ rest else rest

abbrev pub later : Option WindowState → Option WindowState → Option WindowState
later st none = st
later st (some new) = some new

-- The answers of one window that only the requests of the key reach.
unfoldable pub window_answers : ℕ → ℕ → String → Option WindowState → List Request → List Bool
unfolding take_slot
window_answers max window key st [] = []
window_answers max window key st ((now, k) ∷ rs) =
    if k == key
    then (take_slot max window now st).0
      ∷ window_answers max window key (later st (take_slot max window now st).1) rs
    else window_answers max window key st rs

-- The instants of a run do not go back, from `t` on.
abbrev pub IsTimed : ℕ → List Request → Type 0
IsTimed t [] = Unit
IsTimed t ((now, k) ∷ rs) = (t ≤ now) × IsTimed now rs

abbrev IsExpired : ℕ → Option WindowState → Type 0
IsExpired now none = Unit
IsExpired now (some w) = w.reset_at < now

-- What the map says of a key is its window, unless that has expired and was swept.
record Agrees (now : ℕ) (key : String) (seen : Seen) (st : Option WindowState) : Type 0 where
  holds : All (λ (e : String × WindowState). (e.0 == key) ≡ true → st ≡ some e.1) seen
  missing : state_of key seen ≡ none → IsExpired now st

IsExpired-later :
    (now now' : ℕ) (st : Option WindowState) → now ≤ now' → IsExpired now st → IsExpired now' st
IsExpired-later now now' none le h = h
IsExpired-later now now' (some w) le h = omega (arith, le, h)

sweep-All :
    (P : String × WindowState → Type 0) (now : ℕ) (seen : Seen)
    → All P seen
    → All P (sweep now seen)
unfolding sweep
sweep-All P now [] h = h
sweep-All P now ((k, w) ∷ seen) h = elim (Bool-cases (ltb w.reset_at now)) [
  | inl expired ↦ rw expired (sweep-All P now seen h.1)
  | inr lasting ↦ rw lasting (h.0, sweep-All P now seen h.1)
]

delete-All :
    (P : String × WindowState → Type 0) (key : String) (seen : Seen)
    → All P seen
    → All P (delete key seen)
unfolding delete
delete-All P key [] h = h
delete-All P key ((k, w) ∷ seen) h = elim (Bool-cases (k == key)) [
  | inl same ↦ rw same (delete-All P key seen h.1)
  | inr other ↦ rw other (h.0, delete-All P key seen h.1)
]

delete-gone : (key : String) (seen : Seen) → All (λ e. (e.0 == key) ≡ false) (delete key seen)
unfolding delete
delete-gone key [] = tt
delete-gone key ((k, w) ∷ seen) = elim (Bool-cases (k == key)) [
  | inl same ↦ rw same (delete-gone key seen)
  | inr other ↦ rw other (other, delete-gone key seen)
]

-- Deleting another key leaves the state of this one.
state_of-delete :
    (key other : String) (seen : Seen)
    → (other == key) ≡ false
    → state_of key (delete other seen) ≡ state_of key seen
unfolding state_of delete
state_of-delete key other [] h = refl
state_of-delete key other ((k, w) ∷ seen) h = elim (Bool-cases (k == other)) [
  | inl same ↦
      let off : (k == key) ≡ false =
        subst (λ x. (x == key) ≡ false) (sym ((string_eq.equal_iff k other).0 same)) h in
      rw (same, off) (state_of-delete key other seen h)
  | inr differs ↦
      rw differs (ap (λ st. if k == key then some w else st) (state_of-delete key other seen h))
]

present : {A : Type 0} {a : A} → some a ≡ none → ⊥
present h = cc

-- The window of the key is the one that the map has.
state_of-holds :
    (key : String) (seen : Seen) (st : Option WindowState) (w : WindowState)
    → All (λ (e : String × WindowState). (e.0 == key) ≡ true → st ≡ some e.1) seen
    → state_of key seen ≡ some w
    → st ≡ some w
unfolding state_of
state_of-holds key [] st w h e = cc
state_of-holds key ((k, v) ∷ seen) st w h e = elim (Bool-cases (k == key)) [
  | inl same ↦ h.0 same ∙ (rw same at e)
  | inr other ↦ state_of-holds key seen st w h.1 (rw other at e)
]

-- A key that is not there after a sweep was not there before it, or expired.
state_of-sweep :
    (now : ℕ) (key : String) (seen : Seen)
    → state_of key (sweep now seen) ≡ none
    → (state_of key seen ≡ none)
      ⊎ (w : WindowState) × (state_of key seen ≡ some w) × (w.reset_at < now)
unfolding state_of sweep
state_of-sweep now key [] h = inl refl
state_of-sweep now key ((k, w) ∷ seen) h = elim (Bool-cases (k == key)) [
  | inl same ↦ elim (Bool-cases (ltb w.reset_at now)) [
    | inl expired ↦ inr (w, rw same refl, ground (arith, expired))
    | inr lasting ↦
        let gone : ◌≡◌ {A = Option WindowState} (some w) none = rw (lasting, same) at h in
        elim (present gone) [ ]
  ]
  | inr other ↦
      let rest : state_of key (sweep now seen) ≡ none = elim (Bool-cases (ltb w.reset_at now)) [
        | inl expired ↦ rw expired at h
        | inr lasting ↦ rw (lasting, other) at h
      ] in
      rw other (state_of-sweep now key seen rest)
]

clash : {b : Bool} → b ≡ true → b ≡ false → ⊥
clash p q = cc

-- An expired window counts as none.
take_slot-IsExpired :
    (max window now : ℕ) (st : Option WindowState)
    → IsExpired now st
    → take_slot max window now st ≡ take_slot max window now none
unfolding take_slot
take_slot-IsExpired max window now none h = refl
take_slot-IsExpired max window now (some w) h =
    let expired : ltb w.reset_at now ≡ true = ground (arith, h) in rw expired refl

module _ (key : String) where
  Agrees-sweep :
      (now : ℕ) (seen : Seen) (st : Option WindowState)
      → Agrees now key seen st
      → Agrees now key (sweep now seen) st
  Agrees-sweep now seen st a = record {
    holds = sweep-All _ now seen a.holds;
    missing = λ gone. elim (state_of-sweep now key seen gone) [
      | inl absent ↦ a.missing absent
      | inr (w, there, expired) ↦
          subst (IsExpired now) (sym (state_of-holds key seen st w a.holds there)) expired
    ];
  }

  Agrees-swept :
      (now : ℕ) (known : Bool) (seen : Seen) (st : Option WindowState)
      → Agrees now key seen st
      → Agrees now key (swept now known seen) st
  Agrees-swept now known seen st a =
      elim (Bool-cases (not known && leb sweep_threshold (length seen))) [
        | inl full ↦ rw full (Agrees-sweep now seen st a)
        | inr room ↦ rw room a
      ]

  -- What is written for another key leaves the window of this one.
  Agrees-written_other :
      (now : ℕ) (k : String) (new : Option WindowState) (seen : Seen) (st : Option WindowState)
      → (k == key) ≡ false
      → Agrees now key seen st
      → Agrees now key (written k new seen) st
  unfolding state_of
  Agrees-written_other now k none seen st other a = a
  Agrees-written_other now k (some w) seen st other a = record {
    holds = ((λ same. elim (clash same other) [ ]), delete-All _ k seen a.holds);
    missing = λ gone. a.missing (sym (state_of-delete key k seen other) ∙ (rw other at gone));
  }

  -- What is written for the key is its window.
  Agrees-written :
      (now : ℕ) (new : WindowState) (seen : Seen) → Agrees now key (put key new seen) (some new)
  unfolding state_of
  Agrees-written now new seen = record {
    holds = (
      (λ same. refl),
      All-imp _ _ (delete key seen) (λ e other same. elim (clash same other) [ ])
          (delete-gone key seen),
    );
    missing = λ gone. elim (present (rw (equal_refl key) at gone)) [ ];
  }

  Agrees-later :
      (now now' : ℕ) (seen : Seen) (st : Option WindowState)
      → now ≤ now'
      → Agrees now key seen st
      → Agrees now' key seen st
  Agrees-later now now' seen st le a = record {
    holds = a.holds;
    missing = λ gone. IsExpired-later now now' st le (a.missing gone);
  }

  Agrees-written_own :
      (now : ℕ) (new st : Option WindowState) (seen : Seen)
      → Agrees now key seen st
      → Agrees now key (written key new seen) (later st new)
  Agrees-written_own now none st seen a = a
  Agrees-written_own now (some w) st seen a = Agrees-written now w seen

  -- The map answers a request of the key as its window does.
  take_slot-Agrees :
      (max window now : ℕ) (seen : Seen) (st : Option WindowState)
      → Agrees now key seen st
      → take_slot max window now (state_of key seen) ≡ take_slot max window now st
  unfolding take_slot
  take_slot-Agrees max window now seen st a = elim (Option-cases (state_of key seen)) [
    | inr (w, there) ↦
        ap (take_slot max window now) (there ∙ sym (state_of-holds key seen st w a.holds there))
    | inl absent ↦
        ap (take_slot max window now) absent
        ∙ sym (take_slot-IsExpired max window now st (a.missing absent))
  ]

  -- In any run of requests whose instants do not go back, the limiter answers those of a key as a
  -- window of its own does that only they reach, from any map that agrees with the window on.
  answers-window_answers :
      (rs : List Request) (l : IpLimiter) (t : ℕ) (st : Option WindowState)
      → (l.max == 0) ≡ false
      → (key == "") ≡ false
      → IsTimed t rs
      → Agrees t key l.seen st
      → answers key l rs ≡ window_answers l.max l.window key st rs
  unfolding answers window_answers allow
  answers-window_answers [] l t st capped named timed a = refl
  answers-window_answers ((now, k) ∷ rs) l t st capped named (le, timed) a =
      let a = Agrees-later t now l.seen st le a in
      elim (Bool-cases (k == key)) [
        | inl same ↦
            let k_is_key = (string_eq.equal_iff k key).0 same in
            let slot = take_slot l.max l.window now st in
            rw same (
              rw (k_is_key, capped, named)
                (rw (take_slot-Agrees l.max l.window now l.seen st a) (
                  ap (λ rest. slot.0 ∷ rest)
                    (answers-window_answers rs
                      (record l {
                        seen =
                            written key slot.1 (swept now (is_some (state_of key l.seen)) l.seen);
                      })
                      now (later st slot.1) capped named timed
                      (Agrees-written_own now slot.1 st _
                        (Agrees-swept now (is_some (state_of key l.seen)) l.seen st a))))))
        | inr other ↦ elim (Bool-cases (k == "")) [
          | inl unnamed ↦
              rw other
                (rw (capped, unnamed) (answers-window_answers rs l now st capped named timed a))
          | inr k_named ↦ rw other (
              rw (capped, k_named)
                (answers-window_answers rs
                  (record l {
                    seen =
                        written k (take_slot l.max l.window now (state_of k l.seen)).1
                          (swept now (is_some (state_of k l.seen)) l.seen);
                  })
                  now st capped named timed
                  (Agrees-written_other now k _ _ st other (Agrees-swept now _ l.seen st a))))
        ]
      ]

-- A limiter that starts with no keys answers, in any run of requests whose instants do not go back,
-- those of each key as a window of its own does, which no other request and no sweep reaches.
pub answers-new_ip_limiter :
    (key : String) (max window : ℕ) (rs : List Request)
    → (max == 0) ≡ false
    → (key == "") ≡ false
    → IsTimed 0 rs
    → answers key (new_ip_limiter max window) rs
      ≡ window_answers max (if window == 0 then minute else window) key none rs
unfolding new_ip_limiter
answers-new_ip_limiter key max window rs capped named timed = rw capped (
    answers-window_answers key rs
      (record { max = max; window = if window == 0 then minute else window; seen = [] }) 0 none
      capped named timed (record { holds = tt; missing = λ gone. tt }))
