-- ===== src/Peer/Server/Rescue.antt =====
-- The servicer's `try` of peer/server.py, from what the handler does.
use sonic_watchtower.Prelude.{◌≡◌, refl, arith}
use sonic_watchtower.Prelude.Exec.{Exec, Error, Result, ok, raise}
use sonic_watchtower.Peer.Server.{rescue}

module _ {S A : Type 0} (fallback : A) (m : Exec S A) (s s' : S) where
  pub rescue_ok : (a : A) → m s ≡ (ok a, s') → rescue fallback m s ≡ (a, s')
  unfolding rescue
  rescue_ok a h = ground arith

  pub rescue_raise : (e : Error) → m s ≡ (raise e, s') → rescue fallback m s ≡ (fallback, s')
  unfolding rescue
  rescue_raise e h = ground arith

state_after :
    {S A : Type 0} (fallback : A) (r : Result A) (s : S)
    → (elim r as (λ _. A × S) [ ok a ↦ (a, s) | raise e ↦ (fallback, s) ]).1 ≡ s
state_after fallback (ok a) s = refl
state_after fallback (raise e) s = refl

-- What was written before a raise stays written.
pub rescue_state :
    {S A : Type 0} (fallback : A) (m : Exec S A) (s : S) → (rescue fallback m s).1 ≡ (m s).1
unfolding rescue
rescue_state fallback m s = state_after fallback (m s).0 (m s).1
