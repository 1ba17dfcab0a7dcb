-- ===== src/RateLimit.antt =====
-- internal/pkg/ratelimit/ip_limiter.go: a cap on the requests of a key in a window of time.
pub mod Windows
pub mod Bound
use saas_forge.Base.{
  ℕ, ◌+◌, String, Bool, true, false, List, [], ◌∷◌, Option, some, none, ◌==◌, string_eq, nat_eq,
  not, ltb, leb, if◌then◌else◌, ◌&&◌, ◌||◌, is_some, length,
}

-- `windowState`: an instant is a number
pub record WindowState : Type 0 where
  pub count : ℕ
  pub reset_at : ℕ

-- `seen`, a map from keys
abbrev pub Seen : Type 0
Seen = List (String × WindowState)

pub record IpLimiter : Type 0 where
  pub max : ℕ
  pub window : ℕ
  pub seen : Seen

abbrev pub sweep_threshold : ℕ
sweep_threshold = 1024

abbrev pub minute : ℕ
minute = 60

-- `NewIPLimiter`: a bound that is not positive is 0 here.
unfoldable pub new_ip_limiter : ℕ → ℕ → IpLimiter
new_ip_limiter max window =
    if max == 0
    then record { max = 0; window = 0; seen = [] }
    else record { max = max; window = if window == 0 then minute else window; seen = [] }

unfoldable pub state_of : String → Seen → Option WindowState
state_of key [] = none
state_of key ((k, w) ∷ seen) = if k == key then some w else state_of key seen

unfoldable pub delete : String → Seen → Seen
delete key [] = []
delete key ((k, w) ∷ seen) = if k == key then delete key seen else (k, w) ∷ delete key seen

-- `l.seen[key] = st`
abbrev pub put : String → WindowState → Seen → Seen
put key w seen = (key, w) ∷ delete key seen

-- the loop that drops expired windows
unfoldable pub sweep : ℕ → Seen → Seen
sweep now [] = []
sweep now ((k, w) ∷ seen) = if ltb w.reset_at now then sweep now seen else (k, w) ∷ sweep now seen

abbrev pub swept : ℕ → Bool → Seen → Seen
swept now known seen =
    if not known && leb sweep_threshold (length seen) then sweep now seen else seen

-- The answer and the new state of the key, if it is written.
unfoldable pub take_slot : ℕ → ℕ → ℕ → Option WindowState → Bool × Option WindowState
take_slot max window now none = (true, some (record { count = 1; reset_at = now + window }))
take_slot max window now (some st) =
    if ltb st.reset_at now
    then (true, some (record { count = 1; reset_at = now + window }))
    else if leb max st.count
    then (false, none)
    else (true, some (record st { count = st.count + 1 }))

abbrev pub written : String → Option WindowState → Seen → Seen
written key none seen = seen
written key (some st) seen = put key st seen

-- `Allow`, at the instant `now`
unfoldable pub allow : IpLimiter → ℕ → String → Bool × IpLimiter
unfolding state_of sweep take_slot delete
allow l now key =
    if l.max == 0 || key == ""
    then (true, l)
    else let st = state_of key l.seen in
      let slot = take_slot l.max l.window now st in
      (slot.0, record l { seen = written key slot.1 (swept now (is_some st) l.seen) })
