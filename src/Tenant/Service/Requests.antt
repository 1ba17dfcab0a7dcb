-- ===== src/Tenant/Service/Requests.antt =====
-- Requests to the tenant service, one after another, each with its own caller, clock and failures.
use saas_forge.Base.{ℕ, String, Bool, List, [], ◌∷◌, Option}
use saas_forge.Base.{some, none, true, false}
use saas_forge.Errors.{Err, Result, ok, err}
use saas_forge.Authn.{Subject}
use saas_forge.Tenant.Db.{World}
use saas_forge.Tenant.Service.{
  Ports, CreateInviteInput, create_invite_for, accept_invite_token, change_member_role,
  evict_member, cancel_invite,
}

-- What one request is served with: the ports, the calls that fail, the clock and the caller.
pub record Setting : Type 0 where
  pub ports : Ports
  pub fails : ℕ → Bool
  pub now : ℕ
  pub ctx : Option Subject

pub data Request : Type 0 where
  invite : CreateInviteInput → Request
  accept : String → Request
  change_role : ℕ → String → Request
  evict : ℕ → Request
  cancel : ℕ → Request

unfoldable pub serve : Setting → Request → World → World
serve e (Request.invite input) w = (create_invite_for e.ports e.fails e.now e.ctx input w).1
serve e (Request.accept token) w = (accept_invite_token e.ports e.fails e.now e.ctx token w).1
serve e (Request.change_role target role) w =
    (change_member_role e.ports e.fails e.now e.ctx target role w).1
serve e (Request.evict target) w = (evict_member e.ports e.fails e.now e.ctx target w).1
serve e (Request.cancel id) w = (cancel_invite e.ports e.fails e.now e.ctx id w).1

unfoldable pub serve_all : List (Setting × Request) → World → World
serve_all [] w = w
serve_all ((e, r) ∷ rest) w = serve_all rest (serve e r w)

abbrev pub error_of : {A : Type 0} → Result A → Option Err
error_of (ok a) = none
error_of (err e) = some e

-- The error that a request is answered with, if any.
unfoldable pub answer : Setting → Request → World → Option Err
answer e (Request.invite input) w =
    error_of (create_invite_for e.ports e.fails e.now e.ctx input w).0
answer e (Request.accept token) w =
    error_of (accept_invite_token e.ports e.fails e.now e.ctx token w).0
answer e (Request.change_role target role) w =
    error_of (change_member_role e.ports e.fails e.now e.ctx target role w).0
answer e (Request.evict target) w = error_of (evict_member e.ports e.fails e.now e.ctx target w).0
answer e (Request.cancel id) w = error_of (cancel_invite e.ports e.fails e.now e.ctx id w).0

abbrev pub is_change_role : Request → Bool
is_change_role (Request.change_role _ _) = true
is_change_role _ = false
