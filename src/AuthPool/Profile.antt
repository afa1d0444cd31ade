-- ===== src/AuthPool/Profile.antt =====
-- types.go: one API key and its health.
use rho_llm.Base.{
  ℕ, ◌+◌, ◌-◌, Text, Bool, true, false, Option, none, some, [], ltb, not, ◌&&◌, ℤ, pos_part,
  neg_part,
}
use rho_llm.Clock.{Stamp, never, at}
use rho_llm.Errors.{GoError}
use rho_llm.Errors.Render.{error_text}

pub record AuthProfile : Type 0 where
  pub name : Text
  pub api_key : Text
  pub base_url : Text
  pub is_healthy : Bool
  pub last_used : Stamp
  pub last_error : Text
  pub cooldown : Stamp

-- now.Before(t) for a cooldown that is set.
abbrev pub is_cooling : Stamp → ℕ → Bool
is_cooling never now = false
is_cooling (at t) now = ltb now t

unfoldable pub is_available : AuthProfile → ℕ → Bool
is_available p now = p.is_healthy && not (is_cooling p.cooldown now)

unfoldable pub mark_used : AuthProfile → ℕ → AuthProfile
mark_used p now = record p { last_used = at now }

-- now.Add(d). A time before the clock's start counts as the start.
abbrev pub add_duration : ℕ → ℤ → ℕ
add_duration now d = now + pos_part d - neg_part d

unfoldable pub mark_failed :
    (Text → Text → Text → Text) → AuthProfile → Option GoError → ℤ → ℕ → AuthProfile
mark_failed redact p err d now = record p {
  last_error = elim err [
    | none ↦ p.last_error
    | some e ↦ redact (error_text e) p.api_key p.base_url
  ];
  cooldown = at (add_duration now d);
}

unfoldable pub mark_healthy : AuthProfile → AuthProfile
mark_healthy p = record p { is_healthy = true; last_error = []; cooldown = never }
