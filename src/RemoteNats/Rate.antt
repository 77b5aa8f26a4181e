-- ===== src/RemoteNats/Rate.antt =====
-- How often the actor tries to connect again.
use go_gwiot.Prelude.{
  ℕ, ◌+◌, ◌<◌, ◌≡◌, ap, ◌∙◌, Bool, true, false, List, [], ◌∷◌, arith, inl, inr, Bool-cases,
  if◌then◌else◌,
}
use mathlib.Core.Path.{subst}
use go_gwiot.RemoteNats.{
  RemoteActor, World, RemoteIn, started, stopping_pointer, reconnect_remote, verify_replay,
  new_token, remote_msg2, stopping, stopped, restarting, attempts_now, after,
}
use go_gwiot.RemoteNats.Kept.{after-kept}

-- The times of the attempts that `reconnectRemote` messages lead to, in a sequence of messages.
unfoldable pub attempts : List (World × RemoteIn) → RemoteActor → List ℕ
attempts [] ps = []
attempts ((w, msg) ∷ steps) ps =
    let rest = attempts steps (after w msg ps) in
    if attempts_now w msg ps then w.clock ∷ rest else rest

-- Each time is more than 30 seconds after the one before it, the first after `last`.
abbrev pub Spaced : ℕ → List ℕ → Type 0
Spaced last [] = Unit
Spaced last (t ∷ ts) = (last + 30000000000 < t) × Spaced t ts

attempts_now-older :
    (w : World) (msg : RemoteIn) (ps : RemoteActor)
    → attempts_now w msg ps ≡ true
    → ps.last_reconnect + 30000000000 < w.clock
attempts_now-older w reconnect_remote ps h = ground arith
attempts_now-older w started ps h = cc
attempts_now-older w stopping_pointer ps h = cc
attempts_now-older w verify_replay ps h = cc
attempts_now-older w (new_token t) ps h = cc
attempts_now-older w (remote_msg2 msg) ps h = cc
attempts_now-older w stopping ps h = cc
attempts_now-older w stopped ps h = cc
attempts_now-older w restarting ps h = cc

after-last :
    (w : World) (msg : RemoteIn) (ps : RemoteActor) (b : Bool)
    → attempts_now w msg ps ≡ b
    → (after w msg ps).last_reconnect ≡ (if b then w.clock else ps.last_reconnect)
after-last w msg ps b e =
    (after-kept w msg ps).1 ∙ ap (λ c. if c then w.clock else ps.last_reconnect) e

-- Whatever messages the actor handles, panics included, and whatever the clock shows, the attempts to
-- connect that `reconnectRemote` leads to are more than 30 seconds apart, and the first is more than 30
-- seconds after the last one before.
pub attempts-Spaced :
    (steps : List (World × RemoteIn)) (ps : RemoteActor)
    → Spaced ps.last_reconnect (attempts steps ps)
unfolding attempts
attempts-Spaced [] ps = tt
attempts-Spaced ((w, msg) ∷ steps) ps = elim (Bool-cases (attempts_now w msg ps)) [
  | inl e ↦ rw e (
    attempts_now-older w msg ps e,
    subst (λ last. Spaced last (attempts steps (after w msg ps))) (after-last w msg ps true e)
        (attempts-Spaced steps (after w msg ps)),
  )
  | inr e ↦ rw e (
      subst (λ last. Spaced last (attempts steps (after w msg ps))) (after-last w msg ps false e)
        (attempts-Spaced steps (after w msg ps)))
]
