-- ===== src/Errors/Laws.antt =====
-- Chains of checks.
use event_portal.Base.{Bool, true, false, Option, none, some, ◌≡◌, refl}
use event_portal.Errors.{Error, Code, ◌orelse◌, reject_if}

pub orelse_none : (a b : Option Error) → (a orelse b) ≡ none → (a ≡ none) × (b ≡ none)
orelse_none none b h = (refl, h)
orelse_none (some x) b h = cc

pub reject_none : (b : Bool) (c : Code) → reject_if b c ≡ none → b ≡ false
reject_none true c h = cc
reject_none false c h = refl
